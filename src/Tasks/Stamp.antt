-- ===== src/Tasks/Stamp.antt =====
-- How the columns hold times: `formatTime` writes RFC3339Nano (internal/scheduledtask/repo.go), and
-- SQL compares the texts. Up to the second the text has a fixed width and orders as the seconds do;
-- behind it stands the fraction, without its trailing zeros, and `Z`.
use nx_panel.Base.{
  ℕ, zero, suc, ◌+◌, ◌/◌, ◌%◌, ◌<◌, ◌≡◌, refl, ◌∙◌, ◌≢◌, Bool, true, false, ◌&&◌, ◌||◌, [], ◌∷◌,
  ◌++◌, reverse, arith, ltb, leb, ◌==◌, nat_eq, text_eq, if◌then◌else◌, Text, codes,
}

abbrev pub second : ℕ
second = 1_000_000_000

digits_of : ℕ → ℕ → Text
digits_of zero n = []
digits_of (suc k) n = digits_of k (n / 10) ++ (b'0' + n % 10) ∷ []

drop_zeros : Text → Text
drop_zeros [] = []
drop_zeros (c ∷ s) = let rest = drop_zeros s in if c == b'0' then rest else c ∷ s

-- What follows the seconds: `Z`, or `.` with up to nine digits and `Z`.
unfoldable pub fraction : ℕ → Text
unfolding digits_of drop_zeros
fraction n =
    if n == 0
    then b'Z' ∷ []
    else b'.' ∷ (reverse (drop_zeros (reverse (digits_of 9 n))) ++ b'Z' ∷ [])

-- SQLite's BINARY collation.
unfoldable pub text_leb : Text → Text → Bool
text_leb [] t = true
text_leb (a ∷ s) [] = false
text_leb (a ∷ s) (b ∷ t) = let rest = text_leb s t in if a == b then rest else ltb a b

-- `a <= b` on the texts of two times.
unfoldable pub stamp_leb : ℕ → ℕ → Bool
unfolding fraction text_leb
stamp_leb a b =
    ltb (a / second) (b / second)
    || ((a / second == b / second) && text_leb (fraction (a % second)) (fraction (b % second)))

by_seconds : (q r : ℕ) (rest : Bool) → q ≢ r → (ltb q r || ((q == r) && rest)) ≡ ltb q r
by_seconds q r rest ne = ground arith

leb_of_seconds : (a b : ℕ) → a / second ≢ b / second → ltb (a / second) (b / second) ≡ leb a b
leb_of_seconds a b ne = ground arith

-- The texts order two times as the times are ordered, if they differ in their seconds.
pub stamp_leb_seconds : (a b : ℕ) → a / second ≢ b / second → stamp_leb a b ≡ leb a b
unfolding stamp_leb
stamp_leb_seconds a b ne = by_seconds (a / second) (b / second) _ ne ∙ leb_of_seconds a b ne

-- A time on the whole second is written after every later time of that second: `Z` is above `.`.
pub stamp_leb_whole :
    (a b : ℕ)
    → a % second ≡ 0
    → a / second ≡ b / second
    → 0 < b % second
    → (stamp_leb a b ≡ false) × (a < b)
unfolding stamp_leb
stamp_leb_whole a b whole same lt = (ground arith, omega arith)

stamp_tests :
    (stamp_leb 5_000_000_000 5_000_000_001 ≡ false)
    × (stamp_leb 5_000_000_000 6_000_000_001 ≡ true)
    × (stamp_leb 5_120_000_000 5_123_000_000 ≡ false)
    × (stamp_leb 5_123_000_000 5_130_000_000 ≡ true)
    × (fraction 120_000_000 ≡ codes ".12Z")
unfolding stamp_leb
stamp_tests = (refl, refl, refl, refl, refl)
