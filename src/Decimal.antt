-- ===== src/Decimal.antt =====
-- `strconv.FormatInt(n, 10)`, which spells the request ids of subscriber/request.go. An `int64` is
-- given as its bit pattern, a number below 2 ^ 64.
use Prim.Native.Char.{Char, code}
use native.Mathlib.Nat.{pow-suc}
use klever_subscriber.Base.{
  ℕ, zero, suc, ◌+◌, ◌-◌, ◌*◌, ◌/◌, ◌%◌, ◌^◌, ◌<◌, ◌≡◌, refl, sym, ◌∙◌, ap, String, inl, inr, arith,
  eqb, eqb_iff, ltb, lt→ltb, Bool-cases, if◌then◌else◌,
}

digit : ℕ → Char
digit zero = "0"
digit (suc zero) = "1"
digit (suc (suc zero)) = "2"
digit (suc (suc (suc zero))) = "3"
digit (suc (suc (suc (suc zero)))) = "4"
digit (suc (suc (suc (suc (suc zero))))) = "5"
digit (suc (suc (suc (suc (suc (suc zero)))))) = "6"
digit (suc (suc (suc (suc (suc (suc (suc zero))))))) = "7"
digit (suc (suc (suc (suc (suc (suc (suc (suc zero)))))))) = "8"
digit (suc (suc (suc (suc (suc (suc (suc (suc (suc n))))))))) = "9"

-- The digits of `n` before those that are there; each digit takes one unit of fuel.
emit : ℕ → ℕ → String → String
emit zero n acc = acc
emit (suc fuel) n acc =
    let rest = emit fuel (n / 10) (String.◌∷◌ (digit (n % 10)) acc) in if eqb n 0 then acc else rest

-- Twenty digits are enough below 2 ^ 64.
format_uint : ℕ → String
format_uint n = if eqb n 0 then "0" else emit 20 n ""

unfoldable pub format_int : ℕ → String
unfolding format_uint emit digit
format_int n = if ltb n (2 ^ 63) then format_uint n else String.◌∷◌ "-" (format_uint (2 ^ 64 - n))

-- The number that a run of digits spells, after one that is there.
read : ℕ → String → ℕ
read v String.[] = v
read v (String.◌∷◌ c s) = read (v * 10 + (code c - 48)) s

code-digit : (n : ℕ) → n < 10 → code (digit n) - 48 ≡ n
unfolding digit
code-digit zero h = refl
code-digit (suc zero) h = refl
code-digit (suc (suc zero)) h = refl
code-digit (suc (suc (suc zero))) h = refl
code-digit (suc (suc (suc (suc zero)))) h = refl
code-digit (suc (suc (suc (suc (suc zero))))) h = refl
code-digit (suc (suc (suc (suc (suc (suc zero)))))) h = refl
code-digit (suc (suc (suc (suc (suc (suc (suc zero))))))) h = refl
code-digit (suc (suc (suc (suc (suc (suc (suc (suc zero)))))))) h = refl
code-digit (suc (suc (suc (suc (suc (suc (suc (suc (suc n))))))))) h = omega arith

read-emit : (fuel n : ℕ) (acc : String) → n < 10 ^ fuel → read 0 (emit fuel n acc) ≡ read n acc
unfolding emit read
read-emit zero n acc h = let zero_left : n ≡ 0 = omega arith in rw zero_left
read-emit (suc fuel) n acc h = elim (Bool-cases (eqb n 0)) [
  | inl ends ↦ rw ends (ap (λ v. read v acc) (omega (arith, (eqb_iff n 0).0 ends)))
  | inr goes ↦ rw goes (
      read-emit fuel (n / 10) (String.◌∷◌ (digit (n % 10)) acc) (omega (arith, pow-suc 10 fuel))
      ∙ ap (λ v. read v acc) (omega (arith, code-digit (n % 10) (omega arith))))
]

read-format_uint : (n : ℕ) → n < 2 ^ 64 → read 0 (format_uint n) ≡ n
unfolding format_uint read
read-format_uint n h = elim (Bool-cases (eqb n 0)) [
  | inl none ↦ rw none (omega (arith, (eqb_iff n 0).0 none))
  | inr some ↦ rw some (read-emit 20 n "" (omega arith))
]

format_int_small : (n : ℕ) → n < 2 ^ 63 → format_int n ≡ format_uint n
unfolding format_int
format_int_small n h =
    ap (λ b. if b then format_uint n else String.◌∷◌ "-" (format_uint (2 ^ 64 - n)))
      (lt→ltb n (2 ^ 63) h)

-- Different request numbers are spelled differently, as long as the counter has not wrapped.
pub format_int_inj : (m n : ℕ) → m < 2 ^ 63 → n < 2 ^ 63 → format_int m ≡ format_int n → m ≡ n
format_int_inj m n hm hn e =
    sym (read-format_uint m (omega arith))
    ∙ ap (read 0) (sym (format_int_small m hm) ∙ e ∙ format_int_small n hn)
    ∙ read-format_uint n (omega arith)
