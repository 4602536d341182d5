-- ===== src/Prelude/Texts.antt =====
-- `startsWith`, and what it says of a text that was put together.
use Prim.Native.String
use Prim.Native.String.append
use Prim.Native.Char.{code}
use backend_sketch.Prelude.{
  ◌≡◌, refl, Bool, true, false, String, ◌==◌, nat_eq, if◌then◌else◌, ◌&&◌, arith,
}

unfoldable pub starts_with : String → String → Bool
starts_with String.[] s = true
starts_with (String.◌∷◌ c p) String.[] = false
starts_with (String.◌∷◌ c p) (String.◌∷◌ d s) = (code c == code d) && starts_with p s

pub starts_after : (p t : String) → starts_with p (String.◌++◌ p t) ≡ true
unfolding starts_with
starts_after String.[] t = refl
starts_after (String.◌∷◌ c p) t =
    rw (append.cons c p t, starts_with) (ground (arith, starts_after p t))

-- Two texts that differ before either ends.
unfoldable pub differ : String → String → Bool
differ String.[] s = false
differ (String.◌∷◌ c p) String.[] = false
differ (String.◌∷◌ c p) (String.◌∷◌ d q) =
    let rest = differ p q in if code c == code d then rest else true

pub starts_off : (p q t : String) → differ p q ≡ true → starts_with p (String.◌++◌ q t) ≡ false
unfolding differ starts_with
starts_off String.[] q t h = absurd (cc h)
starts_off (String.◌∷◌ c p) String.[] t h = absurd (cc h)
starts_off (String.◌∷◌ c p) (String.◌∷◌ d q) t h =
    rw (append.cons d q t, starts_with) (ground (arith, h, starts_off p q t))
