-- ===== src/Realtime/Sockets/Index.antt =====
-- What each operation of the store does to one place of its indexes.
use backend_sketch.Prelude.{
  ℕ, ◌≡◌, refl, subst, eq_of_test, ◌&&◌, true, false, not, String, List, [], ◌∷◌, ◌++◌, any, keep,
  ◌==◌, nat_eq, string_eq, if◌then◌else◌, ◌||◌, ltb, length, arith, Bool-cases, Option-cases, inl,
  inr,
}
use backend_sketch.Prelude.JsMap.{JsMap, get-set, get-delete}
use backend_sketch.Prelude.JsMap
use backend_sketch.Realtime.{sockets_of, add_socket, remove_socket, remove_from_rooms}
use backend_sketch.Realtime.Sockets.{holds}

holds_after : (ws : ℕ) (xs ys : List ℕ) → holds ws (xs ++ ys) ≡ (holds ws xs || holds ws ys)
holds_after ws [] ys = refl
holds_after ws (x ∷ xs) ys = ground (arith, holds_after ws xs ys)

holds_kept :
    (x ws : ℕ) (xs : List ℕ)
    → holds x (keep (λ y. not (y == ws)) xs) ≡ (if ws == x then false else holds x xs)
holds_kept x ws [] = ground arith
holds_kept x ws (y ∷ xs) = ground (arith, holds_kept x ws xs)

holds_same : (w x : ℕ) (xs : List ℕ) → holds w xs ≡ true → (w == x) ≡ true → holds x xs ≡ true
holds_same w x xs h e = subst (λ y. holds y xs ≡ true) (eq_of_test w x e) h

holds_added :
    (w x : ℕ) (s : List ℕ)
    → holds x (if any (λ y. y == w) s then s else s ++ w ∷ []) ≡ ((w == x) || holds x s)
holds_added w x s = elim (Bool-cases (any (λ y. y == w) s)) [
  | inl there ↦ rw there (ground (arith, holds_same w x s there))
  | inr away ↦ rw away (ground (arith, holds_after x s (w ∷ [])))
]

sockets_of-add_socket :
    (k j : String) (w : ℕ) (m : JsMap String (List ℕ))
    → sockets_of j (add_socket k w m) ≡ (
        if k == j
        then (let s = sockets_of k m in if any (λ y. y == w) s then s else s ++ w ∷ [])
        else sockets_of j m)
unfolding sockets_of add_socket
sockets_of-add_socket k j w m =
    let s = sockets_of k m in
    rw (get-set k j (if any (λ y. y == w) s then s else s ++ w ∷ []) m, sockets_of, add_socket)
      (ground arith)

pub holds-add_socket :
    (k j : String) (w x : ℕ) (m : JsMap String (List ℕ))
    → holds x (sockets_of j (add_socket k w m))
      ≡ (if k == j then (w == x) || holds x (sockets_of j m) else holds x (sockets_of j m))
holds-add_socket k j w x m = elim (Bool-cases (k == j)) [
  | inl same ↦
      rw (sockets_of-add_socket k j w m, same)
        (subst
          (λ i.
            holds x (let s = sockets_of k m in if any (λ y. y == w) s then s else s ++ w ∷ [])
            ≡ ((w == x) || holds x (sockets_of i m)))
          (eq_of_test k j same) (holds_added w x (sockets_of k m)))
  | inr apart ↦ rw (sockets_of-add_socket k j w m, apart) refl
]

holds_nobody : (x : ℕ) (xs : List ℕ) → ltb 0 (length xs) ≡ false → holds x xs ≡ false
holds_nobody x [] h = refl
holds_nobody x (y ∷ xs) h = ground arith

pub held-remove_socket :
    (k j : String) (ws x : ℕ) (m : JsMap String (List ℕ))
    → holds x (sockets_of j (remove_socket k ws m)) ≡ (
        if k == j
        then (if ws == x then false else holds x (sockets_of j m))
        else holds x (sockets_of j m))
unfolding sockets_of remove_socket
held-remove_socket k j ws x m = elim (Option-cases (JsMap.get k m)) [
  | inl nobody ↦ rw (nobody, remove_socket) (ground (arith, nobody))
  | inr (s, found) ↦
      let rest = keep (λ y. not (y == ws)) s in
      elim (Bool-cases (ltb 0 (length rest))) [
        | inl some_left ↦
            rw (found, some_left, remove_socket, sockets_of)
              (rw (get-set k j rest m) (ground (arith, holds_kept x ws s, found)))
        | inr no_one ↦
            rw (found, no_one, remove_socket, sockets_of)
              (rw (get-delete k j m)
                (ground (arith, holds_kept x ws s, holds_nobody x rest no_one, found)))
      ]
]

pub held-remove_from_rooms :
    (ws x : ℕ) (room : String) (rooms : List String) (m : JsMap String (List ℕ))
    → holds x (sockets_of room (remove_from_rooms ws rooms m))
      ≡ (if (ws == x) && any (λ r. r == room) rooms then false else holds x (sockets_of room m))
unfolding remove_from_rooms
held-remove_from_rooms ws x room [] m = ground arith
held-remove_from_rooms ws x room (r ∷ rooms) m = ground (
  arith,
  held-remove_from_rooms ws x room rooms (remove_socket r ws m),
  held-remove_socket r room ws x m,
)
