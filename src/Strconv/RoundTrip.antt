-- ===== src/Strconv/RoundTrip.antt =====
-- `ParseInt` reads back what `%d` prints.
use mathlib.Core.List.{append_assoc, append-nil}
use text.Mathlib.TextLemmas.{cons-append, nil-append}
use app_autoscaler.Prelude.{
  ℕ, zero, suc, ◌+◌, ◌*◌, ◌/◌, ◌%◌, ◌^◌, ◌≤◌, ◌<◌, String, ◌≡◌, refl, ap, sym, ◌∙◌, inl, inr, some,
  List, [], ◌∷◌, ◌++◌, arith, ltb, Bool-cases,
}
use app_autoscaler.Prelude.Int.{ℤ, pos, negsuc, InInt64}
use app_autoscaler.Strconv.{
  codes, ◌⧺◌, scan, scan_digits, parse_signed, digit, emit, format_int, parse_int,
}

codes-append : (s t : String) → codes (s ⧺ t) ≡ codes s ++ codes t
codes-append String.[] t = rw nil-append
codes-append (String.◌∷◌ c s) t = rw cons-append (rw (codes-append s t))

codes-digit : (d : ℕ) → d < 10 → codes (digit d) ≡ (b'0' + d) ∷ []
unfolding digit
codes-digit zero h = refl
codes-digit (suc zero) h = refl
codes-digit (suc (suc zero)) h = refl
codes-digit (suc (suc (suc zero))) h = refl
codes-digit (suc (suc (suc (suc zero)))) h = refl
codes-digit (suc (suc (suc (suc (suc zero))))) h = refl
codes-digit (suc (suc (suc (suc (suc (suc zero)))))) h = refl
codes-digit (suc (suc (suc (suc (suc (suc (suc zero))))))) h = refl
codes-digit (suc (suc (suc (suc (suc (suc (suc (suc zero)))))))) h = refl
codes-digit (suc (suc (suc (suc (suc (suc (suc (suc (suc zero))))))))) h = refl
codes-digit (suc (suc (suc (suc (suc (suc (suc (suc (suc (suc d)))))))))) h = absurd (omega arith)

-- One digit read in front of a rest.
scan-digit :
    (d n : ℕ) (rest : List ℕ) → d < 10 → scan (codes (digit d) ++ rest) n ≡ scan rest (n * 10 + d)
unfolding scan
scan-digit d n rest h = rw (codes-digit d h) (ground arith)

scan-emit : (f n : ℕ) (rest : List ℕ) → n < f → scan (codes (emit f n) ++ rest) 0 ≡ scan rest n
unfolding emit
scan-emit zero n rest h = absurd (omega arith)
scan-emit (suc f) n rest h = elim (Bool-cases (ltb n 10)) [
  | inl small ↦ rw small (scan-digit n 0 rest (ground arith) ∙ ap (scan rest) (omega arith))
  | inr large ↦
      rw (large, codes-append, append_assoc)
        (scan-emit f (n / 10) (codes (digit (n % 10)) ++ rest) (ground arith)
          ∙ scan-digit (n % 10) (n / 10) rest (omega arith)
          ∙ ap (scan rest) (omega arith))
]

-- A printed number begins with a digit.
emit_head :
    (f n : ℕ)
    → n < f
    → (c : ℕ) × (s : List ℕ) × (codes (emit f n) ≡ c ∷ s) × (b'0' ≤ c) × (c ≤ b'9')
unfolding emit
emit_head zero n h = absurd (omega arith)
emit_head (suc f) n h = elim (Bool-cases (ltb n 10)) [
  | inl small ↦ (b'0' + n, [], rw small (codes-digit n (ground arith)), ground arith, ground arith)
  | inr large ↦
      let (c, s, e, lo, hi) = emit_head f (n / 10) (ground arith) in
      (c, s ++ codes (digit (n % 10)), rw (large, codes-append, e), lo, hi)
]

scan_digits_cons : (xs : List ℕ) {c : ℕ} {s : List ℕ} → xs ≡ c ∷ s → scan_digits xs ≡ scan xs 0
unfolding scan_digits
scan_digits_cons [] e = cc
scan_digits_cons (x ∷ xs) e = refl

scan_digits-emit : (f n : ℕ) → n < f → scan_digits (codes (emit f n)) ≡ some n
unfolding scan
scan_digits-emit f n h =
    let (c, s, e, lo, hi) = emit_head f n h in
    scan_digits_cons (codes (emit f n)) e
    ∙ ap (λ (xs : List ℕ). scan xs 0) (sym (append-nil (codes (emit f n))))
    ∙ scan-emit f n [] h

parse_signed-digits :
    (cutoff n : ℕ) (xs : List ℕ) {c : ℕ} {s : List ℕ}
    → xs ≡ c ∷ s
    → b'0' ≤ c
    → n < cutoff
    → scan_digits xs ≡ some n
    → parse_signed cutoff xs ≡ some (pos n)
unfolding parse_signed
parse_signed-digits cutoff n [] e lo h r = cc
parse_signed-digits cutoff n (x ∷ xs) e lo h r = ground arith

parse_signed-minus :
    (cutoff n : ℕ) (xs : List ℕ)
    → suc n ≤ cutoff
    → scan_digits xs ≡ some (suc n)
    → parse_signed cutoff (b'-' ∷ xs) ≡ some (negsuc n)
unfolding parse_signed
parse_signed-minus cutoff n xs h r = rw r (ground arith)

-- What `%d` prints of a value of int64, `ParseInt` with 64 bits reads back as that value.
pub parse_int-format_int : (z : ℤ) → InInt64 z → parse_int 64 (format_int z) ≡ some z
unfolding parse_int format_int
parse_int-format_int (pos n) h =
    let (c, s, e, lo, hi) = emit_head (suc n) n (omega arith) in
    parse_signed-digits (2 ^ 63) n (codes (emit (suc n) n)) e lo h.0
      (scan_digits-emit (suc n) n (omega arith))
parse_int-format_int (negsuc n) h = rw codes-append (
    parse_signed-minus (2 ^ 63) n (codes (emit (suc (suc n)) (suc n))) h.1
      (scan_digits-emit (suc (suc n)) (suc n) (omega arith)))
