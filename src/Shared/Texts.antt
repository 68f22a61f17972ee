-- ===== src/Shared/Texts.antt =====
-- The functions of Go's package strings that the code calls. A text that comes from JSON is valid
-- UTF-8: it is given by its code points, which stand in the order of its bytes.
use Prim.Native.Nat.{ℕ}
use mathlib.Core.Path.{◌≡◌, refl, ap}
use mathlib.Core.Logic.{inl, inr}
use mathlib.Core.Bool.{Bool, false, ◌&&◌, ◌||◌}
use mathlib.Core.List.{List, [], ◌∷◌}
use mathlib.Core.Option.{Option, none, some}
use nx_iio_t_gateway_max_gat.Shared.Tests.{◌==◌, leb, if◌then◌else◌, Bool-cases}

-- unicode.IsSpace.
unfoldable pub is_space : ℕ → Bool
is_space c =
    (leb 9 c && leb c 13)
    || ((c == 32 || c == 133)
        || ((c == 160 || c == 5760)
            || ((leb 8192 c && leb c 8202)
                || ((c == 8232 || c == 8233) || (c == 8239 || (c == 8287 || c == 12288))))))

unfoldable pub trim_left : List ℕ → List ℕ
trim_left [] = []
trim_left (c ∷ cs) = let rest = trim_left cs in if is_space c then rest else c ∷ cs

unfoldable cut_right : ℕ → List ℕ → List ℕ
cut_right c [] = if is_space c then [] else c ∷ []
cut_right c (x ∷ xs) = c ∷ x ∷ xs

unfoldable pub trim_right : List ℕ → List ℕ
unfolding cut_right
trim_right [] = []
trim_right (c ∷ cs) = cut_right c (trim_right cs)

-- strings.TrimSpace.
unfoldable pub trim_space : List ℕ → List ℕ
unfolding trim_left trim_right
trim_space s = trim_right (trim_left s)

-- strings.HasPrefix and the rest behind it.
unfoldable pub after_prefix : List ℕ → List ℕ → Option (List ℕ)
after_prefix [] s = some s
after_prefix (p ∷ ps) [] = none
after_prefix (p ∷ ps) (c ∷ cs) = let rest = after_prefix ps cs in if p == c then rest else none

-- strings.ContainsAny.
unfoldable pub is_among : ℕ → List ℕ → Bool
is_among c [] = false
is_among c (x ∷ xs) = c == x || is_among c xs

unfoldable pub contains_any : List ℕ → List ℕ → Bool
unfolding is_among
contains_any set [] = false
contains_any set (c ∷ cs) = is_among c set || contains_any set cs

cut_right-cut_right :
    (c : ℕ) (s : List ℕ) → trim_right s ≡ s → trim_right (cut_right c s) ≡ cut_right c s
unfolding trim_right cut_right
cut_right-cut_right c [] h = elim (Bool-cases (is_space c)) [
  | inl space ↦ rw (space, cut_right) refl
  | inr seen ↦ let e : cut_right c [] ≡ c ∷ [] = rw (seen, cut_right) refl in ap trim_right e
]
cut_right-cut_right c (x ∷ xs) h = rw h refl

trim_right_again : (s : List ℕ) → trim_right (trim_right s) ≡ trim_right s
unfolding trim_right cut_right
trim_right_again [] = refl
trim_right_again (c ∷ cs) = cut_right-cut_right c (trim_right cs) (trim_right_again cs)

-- A text that begins with no space, also once its end is cut.
data Starts : List ℕ → Type 0 where
  empty : Starts []
  visible : {c : ℕ} {cs : List ℕ} → is_space c ≡ false → Starts (c ∷ cs)

trim_left-Starts : (s : List ℕ) → Starts (trim_left s)
unfolding trim_left
trim_left-Starts [] = empty
trim_left-Starts (c ∷ cs) = elim (Bool-cases (is_space c)) [
  | inl space ↦ rw (space, trim_left) (trim_left-Starts cs)
  | inr seen ↦ rw (seen, trim_left) (visible seen)
]

cut_right-Starts : (c : ℕ) (s : List ℕ) → is_space c ≡ false → Starts (cut_right c s)
unfolding cut_right
cut_right-Starts c [] h = rw (h, cut_right) (visible h)
cut_right-Starts c (x ∷ xs) h = visible h

trim_right-Starts : (s : List ℕ) → Starts s → Starts (trim_right s)
unfolding trim_right
trim_right-Starts [] v = empty
trim_right-Starts (c ∷ cs) (visible h) = cut_right-Starts c (trim_right cs) h

trim_left_stays : (s : List ℕ) → Starts s → trim_left s ≡ s
unfolding trim_left
trim_left_stays [] v = refl
trim_left_stays (c ∷ cs) (visible h) = rw (h, trim_left) refl

pub trim_space_again : (s : List ℕ) → trim_space (trim_space s) ≡ trim_space s
unfolding trim_space
trim_space_again s =
    rw (trim_left_stays (trim_space s) (trim_right-Starts (trim_left s) (trim_left-Starts s)))
      (trim_right_again (trim_left s))
