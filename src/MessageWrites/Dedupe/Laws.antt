-- ===== src/MessageWrites/Dedupe/Laws.antt =====
-- What deduplication keeps, and when it refuses a batch.
use backend_sketch.Prelude.{
  ◌≡◌, ◌≢◌, refl, sym, ◌∙◌, subst, true, ◌&&◌, String, none, some, List, [], ◌∷◌, All, AllPairs,
  All_imp, All_zip, arith, any, Bool-cases, Option-cases, inl, inr, ◌==◌, string_eq, if◌then◌else◌,
}
use backend_sketch.Prelude.JsMap.{JsMap, Distinct, get-set, set-Distinct}
use backend_sketch.Prelude.JsMap
use backend_sketch.Prelude.Result.{Result, ok, err, >>=-eq-ok, ok_inj}
use backend_sketch.Nats.{MessageWriteCommand}
use backend_sketch.MessageWrites.Dedupe.{
  WriteError, conflicting_commands, key_of, agrees, dedupe_from, values, dedupe,
}

-- A command with the key of `c` that says the same.
abbrev pub Stands : JsMap String MessageWriteCommand → MessageWriteCommand → Type 0
Stands m c = (d : MessageWriteCommand) × (JsMap.get (key_of c) m ≡ some d) × (agrees d c ≡ true)

conflict_ne_ok :
    {m : JsMap String MessageWriteCommand}
    → ◌≢◌ {A = Result WriteError (JsMap String MessageWriteCommand)}
        (err conflicting_commands)
        (ok m)
conflict_ne_ok e = cc

-- A round of the loop: a new key is set, a known one must agree.
module _ (c : MessageWriteCommand) (cs : List MessageWriteCommand)
    (m : JsMap String MessageWriteCommand) where
  dedupe_from_new :
      JsMap.get (key_of c) m ≡ none
      → dedupe_from m (c ∷ cs) ≡ dedupe_from (JsMap.set (key_of c) c m) cs
  unfolding dedupe_from
  dedupe_from_new e = rw (e, dedupe_from)

  dedupe_from_known :
      (d : MessageWriteCommand)
      → JsMap.get (key_of c) m ≡ some d
      → dedupe_from m (c ∷ cs) ≡ (if agrees d c then dedupe_from m cs else err conflicting_commands)
  unfolding dedupe_from
  dedupe_from_known d e = rw (e, dedupe_from)

  -- So a property of the result is proved for the rest of the loop.
  dedupe_from_step {ℓ} :
      (P : Type ℓ) {m' : JsMap String MessageWriteCommand}
      → dedupe_from m (c ∷ cs) ≡ ok m'
      → (JsMap.get (key_of c) m ≡ none → dedupe_from (JsMap.set (key_of c) c m) cs ≡ ok m' → P)
      → ((d : MessageWriteCommand)
          → JsMap.get (key_of c) m ≡ some d
          → agrees d c ≡ true
          → dedupe_from m cs ≡ ok m'
          → P)
      → P
  dedupe_from_step P h new known = elim (Option-cases (JsMap.get (key_of c) m)) [
    | inl e ↦ new e (sym (dedupe_from_new e) ∙ h)
    | inr (d, e) ↦ elim (Bool-cases (agrees d c)) [
      | inl same ↦ known d e same (rw (dedupe_from_known d e, same) at h)
      | inr other ↦ absurd (conflict_ne_ok (rw (dedupe_from_known d e, other) at h))
    ]
  ]

dedupe_from_keeps :
    (cs : List MessageWriteCommand) (m m' : JsMap String MessageWriteCommand) (k : String)
    (d : MessageWriteCommand)
    → dedupe_from m cs ≡ ok m'
    → JsMap.get k m ≡ some d
    → JsMap.get k m' ≡ some d
unfolding dedupe_from
dedupe_from_keeps [] m m' k d h g = subst (λ n. JsMap.get k n ≡ some d) (ok_inj h) g
dedupe_from_keeps (c ∷ cs) m m' k d h g =
    dedupe_from_step c cs m (JsMap.get k m' ≡ some d) h
      (λ e r.
        dedupe_from_keeps cs (JsMap.set (key_of c) c m) m' k d r
          (ground (arith, get-set (key_of c) k c m)))
      (λ x e same r. dedupe_from_keeps cs m m' k d r g)

agrees_self : (c : MessageWriteCommand) → agrees c c ≡ true
unfolding agrees
agrees_self c = ground arith

dedupe_from-Stands :
    (cs : List MessageWriteCommand) (m m' : JsMap String MessageWriteCommand)
    → dedupe_from m cs ≡ ok m'
    → All (Stands m') cs
dedupe_from-Stands [] m m' h = tt
dedupe_from-Stands (c ∷ cs) m m' h =
    dedupe_from_step c cs m (All (Stands m') (c ∷ cs)) h
      (λ e r. (
        (
          c,
          dedupe_from_keeps cs (JsMap.set (key_of c) c m) m' (key_of c) c r
              (ground (arith, get-set (key_of c) (key_of c) c m)),
          agrees_self c,
        ),
        dedupe_from-Stands cs (JsMap.set (key_of c) c m) m' r,
      ))
      (λ d e same r.
        ((d, dedupe_from_keeps cs m m' (key_of c) d r e, same), dedupe_from-Stands cs m m' r))

-- The keys of the map are those of its commands, each once.
abbrev Keyed : JsMap String MessageWriteCommand → Type 0
Keyed m = Distinct m × All (λ e. e.0 ≡ key_of e.1) m

set-keyed_entries :
    (c : MessageWriteCommand) (m : JsMap String MessageWriteCommand)
    → All (λ e. e.0 ≡ key_of e.1) m
    → All (λ e. e.0 ≡ key_of e.1) (JsMap.set (key_of c) c m)
unfolding JsMap.set
set-keyed_entries c [] h = (refl, tt)
set-keyed_entries c ((j, d) ∷ m) h = ground (arith, set-keyed_entries c m h.1)

set-Keyed :
    (c : MessageWriteCommand) (m : JsMap String MessageWriteCommand)
    → Keyed m
    → Keyed (JsMap.set (key_of c) c m)
set-Keyed c m h = (set-Distinct (key_of c) c m h.0, set-keyed_entries c m h.1)

dedupe_from-Keyed :
    (cs : List MessageWriteCommand) (m m' : JsMap String MessageWriteCommand)
    → Keyed m
    → dedupe_from m cs ≡ ok m'
    → Keyed m'
unfolding dedupe_from
dedupe_from-Keyed [] m m' k h = subst Keyed (ok_inj h) k
dedupe_from-Keyed (c ∷ cs) m m' k h =
    dedupe_from_step c cs m (Keyed m') h
      (λ e r. dedupe_from-Keyed cs (JsMap.set (key_of c) c m) m' (set-Keyed c m k) r)
      (λ d e same r. dedupe_from-Keyed cs m m' k r)

-- In a map without repeated keys, an absent key differs from every key there.
get_none-All :
    (k : String) (m : JsMap String MessageWriteCommand)
    → JsMap.get k m ≡ none
    → All (λ e. e.0 ≡ key_of e.1) m
    → All (λ d. ◌≢◌ k (key_of d)) (values m)
unfolding JsMap.get
get_none-All k [] g h = tt
get_none-All k ((j, d) ∷ m) g h = ground (arith, get_none-All k m)

Keyed-values :
    (m : JsMap String MessageWriteCommand)
    → Keyed m
    → AllPairs (λ c d. ◌≢◌ (key_of c) (key_of d)) (values m)
Keyed-values [] h = tt
Keyed-values ((j, c) ∷ m) h = (
  subst (λ k. All (λ d. ◌≢◌ k (key_of d)) (values m)) {x = j} h.1.0 (get_none-All j m h.0.0 h.1.1),
  Keyed-values m (h.0.1, h.1.1),
)

-- The stored command is among the values.
get-Mem :
    (k : String) (m : JsMap String MessageWriteCommand) (d c : MessageWriteCommand)
    → agrees d c ≡ true
    → All (λ e. e.0 ≡ key_of e.1) m
    → JsMap.get k m ≡ some d
    → any (λ x. (key_of x == k) && agrees x c) (values m) ≡ true
unfolding JsMap.get
get-Mem k [] d c a h g = cc
get-Mem k ((j, x) ∷ m) d c a h g = ground (arith, get-Mem k m d c a h.1)

find_agreeing :
    (c : MessageWriteCommand) (m : JsMap String MessageWriteCommand)
    → Stands m c
    → All (λ e. e.0 ≡ key_of e.1) m
    → any (λ d. (key_of d == key_of c) && agrees d c) (values m) ≡ true
find_agreeing c m (d, g, a) h = get-Mem (key_of c) m d c a h g

-- A batch that passes has one command for each sender and request, and each command of the batch
-- is one of these or says the same as it.
pub dedupe_sound :
    (cs ds : List MessageWriteCommand)
    → dedupe cs ≡ ok ds
    → AllPairs (λ c d. ◌≢◌ (key_of c) (key_of d)) ds
      × All (λ c. any (λ d. (key_of d == key_of c) && agrees d c) ds ≡ true) cs
unfolding dedupe
dedupe_sound cs ds h =
    let (m, r, e) = >>=-eq-ok (dedupe_from [] cs) _ h in
    let keyed = dedupe_from-Keyed cs [] m (tt, tt) r in
    subst
      (λ xs.
        AllPairs (λ c d. ◌≢◌ (key_of c) (key_of d)) xs
        × All (λ c. any (λ d. (key_of d == key_of c) && agrees d c) xs ≡ true) cs)
      (ok_inj e)
      (
        Keyed-values m keyed,
        All_imp {P = Stands m}
            {Q = λ c. any (λ d. (key_of d == key_of c) && agrees d c) (values m) ≡ true} cs
            (λ c s. find_agreeing c m s keyed.1) (dedupe_from-Stands cs [] m r),
      )

-- What lets the loop go on: no command contradicts one before it.
abbrev Compatible : JsMap String MessageWriteCommand → MessageWriteCommand → Type 0
Compatible m c = (d : MessageWriteCommand) → JsMap.get (key_of c) m ≡ some d → agrees d c ≡ true

abbrev pub Agreeing : MessageWriteCommand → MessageWriteCommand → Type 0
Agreeing c d = key_of c ≡ key_of d → agrees c d ≡ true

set-Compatible :
    (c : MessageWriteCommand) (m : JsMap String MessageWriteCommand) (x : MessageWriteCommand)
    → Agreeing c x
    → Compatible m x
    → Compatible (JsMap.set (key_of c) c m) x
set-Compatible c m x a h d g = ground (arith, get-set (key_of c) (key_of x) c m, a, h d)

dedupe_from_accepts :
    (cs : List MessageWriteCommand) (m : JsMap String MessageWriteCommand)
    → All (Compatible m) cs
    → AllPairs Agreeing cs
    → (m' : JsMap String MessageWriteCommand) × (dedupe_from m cs ≡ ok m')
unfolding dedupe_from
dedupe_from_accepts [] m h p = (m, refl)
dedupe_from_accepts (c ∷ cs) m h p = elim (Option-cases (JsMap.get (key_of c) m)) [
  | inl e ↦
      let set_compatible =
        All_imp {P = λ x. Agreeing c x × Compatible m x} {Q = Compatible (JsMap.set (key_of c) c m)}
          cs (λ x b. set-Compatible c m x b.0 b.1)
          (All_zip (Agreeing c) (Compatible m) cs p.0 h.1) in
      let (m', r) = dedupe_from_accepts cs (JsMap.set (key_of c) c m) set_compatible p.1 in
      (m', dedupe_from_new c cs m e ∙ r)
  | inr (d, e) ↦
      let (m', r) = dedupe_from_accepts cs m h.1 p.1 in
      (m', dedupe_from_known c cs m d e ∙ rw (h.0 d e) r)
]

nothing_seen : (cs : List MessageWriteCommand) → All (Compatible []) cs
unfolding JsMap.get
nothing_seen [] = tt
nothing_seen (c ∷ cs) = ((λ d e. cc), nothing_seen cs)

-- A batch in which commands of one sender and request never differ passes.
pub dedupe_accepts :
    (cs : List MessageWriteCommand)
    → AllPairs Agreeing cs
    → (ds : List MessageWriteCommand) × (dedupe cs ≡ ok ds)
unfolding dedupe JsMap.get
dedupe_accepts cs p =
    let (m, r) = dedupe_from_accepts cs [] (nothing_seen cs) p in (values m, rw r refl)
