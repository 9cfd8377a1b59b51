-- ===== src/Snapshot/RoundTrip.antt =====
-- Encoding and decoding the time of a snapshot (pkg/store/timestamp.go).
use floatlab_core.Base.{
  &&-eq-true, Bool, Bool-cases, List, Option, [], all, ap, arith, codes, false, inl, inr, nat_beq,
  nat_eq, none, refl, some, string_eq, suc, true, zero, ℕ, ◌%◌, ◌&&◌, ◌*◌, ◌++◌, ◌+◌, ◌-◌, ◌/◌, ◌<◌,
  ◌==◌, ◌∙◌, ◌∷◌, ◌≡◌, ◌≤◌,
}
use floatlab_core.Snapshot.{
  alphabet, automated_snapshot_name, decode, decode_symbols, encode, encode_symbols, epoch,
  index_of, is_automated_snapshot, rune_length, symbol, ticks, unalias, utf8_length,
}

up_to : ℕ → (ℕ → Bool) → Bool
up_to zero p = true
up_to (suc n) p = p n && up_to n p

up_to_elim : (n : ℕ) (p : ℕ → Bool) (d : ℕ) → up_to n p ≡ true → d < n → p d ≡ true
unfolding up_to
up_to_elim zero p d h l = ground arith
up_to_elim (suc n) p d h l = elim (Bool-cases (nat_beq d n)) [
  | inl e ↦ ap p ((nat_eq.beq_iff d n).0 e) ∙ (&&-eq-true (p n) _ h).0
  | inr e ↦ up_to_elim n p d (&&-eq-true (p n) _ h).1 (ground arith)
]

-- What a symbol is, tested.
is_symbol : ℕ → Bool
is_symbol d =
    elim (index_of (unalias (symbol d)) alphabet) [ some n ↦ n == d | none ↦ false ]
    && (rune_length (symbol d) == 1
        && elim (index_of (symbol d) alphabet) [ some n ↦ true | none ↦ false ])

all_symbols : up_to 32 is_symbol ≡ true
unfolding up_to is_symbol
all_symbols = refl

-- The character of a digit stands for the digit, is one byte long and is in the alphabet.
IsSymbol : ℕ → ℕ → Type 0
IsSymbol d c =
    (index_of (unalias c) alphabet ≡ some d)
    × (rune_length c ≡ 1)
    × ((n : ℕ) × (index_of c alphabet ≡ some n))

found : (o : Option ℕ) (d : ℕ) → elim o [ some n ↦ n == d | none ↦ false ] ≡ true → o ≡ some d
found none d h = cc
found (some n) d h = ap some ((nat_eq.beq_iff n d).0 h)

present : (o : Option ℕ) → elim o [ some n ↦ true | none ↦ false ] ≡ true → (n : ℕ) × (o ≡ some n)
present none h = cc
present (some n) h = (n, refl)

symbol-IsSymbol : (d : ℕ) → d < 32 → IsSymbol d (symbol d)
unfolding IsSymbol is_symbol
symbol-IsSymbol d l =
    let (a, bc) = &&-eq-true _ _ (up_to_elim 32 is_symbol d all_symbols l) in
    let (b, c) = &&-eq-true _ _ bc in
    (found _ d a, (nat_eq.beq_iff (rune_length (symbol d)) 1).0 b, present _ c)

-- The digits of a number below 2 ^ 30, by the digit of lowest weight last.
digits-value :
    (tick : ℕ)
    → tick < ticks
    → ((((((0 * 32 + tick / 32 / 32 / 32 / 32 / 32 % 32) * 32 + tick / 32 / 32 / 32 / 32 % 32) * 32
                    + tick / 32 / 32 / 32 % 32)
                  * 32
                + tick / 32 / 32 % 32)
              * 32
            + tick / 32 % 32)
          * 32
        + tick % 32)
      ≡ tick
digits-value tick h = omega arith

mod_32 : (n : ℕ) → n % 32 < 32
mod_32 n = omega arith

-- Six symbols are six bytes and in the alphabet.
six-length :
    (a b c d e f : ℕ)
    → rune_length a ≡ 1
    → rune_length b ≡ 1
    → rune_length c ≡ 1
    → rune_length d ≡ 1
    → rune_length e ≡ 1
    → rune_length f ≡ 1
    → utf8_length (a ∷ b ∷ c ∷ d ∷ e ∷ f ∷ []) ≡ 6
six-length a b c d e f p q r s t u = omega (arith, p, q, r, s, t, u)

module _ (to_upper : ℕ → ℕ)
    (fixed : (c n : ℕ) → index_of c alphabet ≡ some n → to_upper c ≡ c) where
  decode-done : (acc : ℕ) → decode_symbols to_upper acc [] ≡ some acc
  unfolding decode_symbols
  decode-done acc = refl

  decode-symbol :
      (d acc : ℕ) (cs : List ℕ)
      → d < 32
      → decode_symbols to_upper acc (symbol d ∷ cs) ≡ decode_symbols to_upper (acc * 32 + d) cs
  unfolding decode_symbols IsSymbol
  decode-symbol d acc cs l =
      let (a, b, (n, c)) = symbol-IsSymbol d l in
      ap
        (λ o. elim o as (λ x. Option ℕ) [
          | none ↦ none
          | some n ↦ decode_symbols to_upper (acc * 32 + n) cs
        ])
        (ap (λ k. index_of (unalias k) alphabet) (fixed (symbol d) n c) ∙ a)

  decode-encode_symbols :
      (tick : ℕ) → tick < ticks → decode_symbols to_upper 0 (encode_symbols 6 tick []) ≡ some tick
  unfolding encode_symbols
  decode-encode_symbols tick l =
      decode-symbol (tick / 32 / 32 / 32 / 32 / 32 % 32) _ _ (mod_32 _)
      ∙ decode-symbol (tick / 32 / 32 / 32 / 32 % 32) _ _ (mod_32 _)
      ∙ decode-symbol (tick / 32 / 32 / 32 % 32) _ _ (mod_32 _)
      ∙ decode-symbol (tick / 32 / 32 % 32) _ _ (mod_32 _)
      ∙ decode-symbol (tick / 32 % 32) _ _ (mod_32 _)
      ∙ decode-symbol (tick % 32) _ _ (mod_32 _)
      ∙ last
    where
      last :
          decode_symbols to_upper
            ((((((0 * 32 + tick / 32 / 32 / 32 / 32 / 32 % 32) * 32 + tick / 32 / 32 / 32 / 32 % 32)
                            * 32
                          + tick / 32 / 32 / 32 % 32)
                        * 32
                      + tick / 32 / 32 % 32)
                    * 32
                  + tick / 32 % 32)
                * 32
              + tick % 32)
            []
          ≡ some tick
      last = decode-done _ ∙ ap some (digits-value tick l)

symbol-length : (n : ℕ) → rune_length (symbol (n % 32)) ≡ 1
unfolding IsSymbol
symbol-length n = (symbol-IsSymbol (n % 32) (mod_32 n)).1

encode_symbols-length : (tick : ℕ) → utf8_length (encode_symbols 6 tick []) ≡ 6
unfolding encode_symbols
encode_symbols-length tick =
    six-length (symbol (tick / 32 / 32 / 32 / 32 / 32 % 32))
      (symbol (tick / 32 / 32 / 32 / 32 % 32)) (symbol (tick / 32 / 32 / 32 % 32))
      (symbol (tick / 32 / 32 % 32)) (symbol (tick / 32 % 32)) (symbol (tick % 32))
      (symbol-length (tick / 32 / 32 / 32 / 32 / 32)) (symbol-length (tick / 32 / 32 / 32 / 32))
      (symbol-length (tick / 32 / 32 / 32)) (symbol-length (tick / 32 / 32))
      (symbol-length (tick / 32)) (symbol-length tick)

is_char : ℕ → Bool
is_char c = elim (index_of c alphabet) [ some _ ↦ true | none ↦ false ]

symbol-is_char : (n : ℕ) → is_char (symbol (n % 32)) ≡ true
unfolding is_char IsSymbol
symbol-is_char n =
    ap (λ o. elim o as (λ x. Bool) [ some _ ↦ true | none ↦ false ])
      (symbol-IsSymbol (n % 32) (mod_32 n)).2.1

&&-intro : (a b : Bool) → a ≡ true → b ≡ true → (a && b) ≡ true
&&-intro true b h k = k
&&-intro false b h k = cc

encode_symbols-all : (tick : ℕ) → all is_char (encode_symbols 6 tick []) ≡ true
unfolding encode_symbols
encode_symbols-all tick = &&-intro _ _ (symbol-is_char (tick / 32 / 32 / 32 / 32 / 32)) (
    &&-intro _ _ (symbol-is_char (tick / 32 / 32 / 32 / 32)) (
      &&-intro _ _ (symbol-is_char (tick / 32 / 32 / 32)) (
        &&-intro _ _ (symbol-is_char (tick / 32 / 32))
          (&&-intro _ _ (symbol-is_char (tick / 32)) (&&-intro _ _ (symbol-is_char tick) refl)))))

name-is_automated :
    (stamp : List ℕ)
    → utf8_length stamp ≡ 6
    → all is_char stamp ≡ true
    → is_automated_snapshot (codes "fl-" ++ stamp) ≡ true
unfolding is_automated_snapshot is_char
name-is_automated stamp l a =
    &&-intro _ _ ((nat_eq.beq_iff (1 + (1 + (1 + utf8_length stamp))) 9).1 (omega (arith, l))) a

encode-some :
    (t : ℕ)
    → epoch ≤ t
    → t < epoch + ticks * 3
    → encode t ≡ some (encode_symbols 6 ((t - epoch) / 3) [])
unfolding encode
encode-some t lo hi = ground arith

decode-six :
    (to_upper : ℕ → ℕ) (stamp : List ℕ) (tick : ℕ)
    → utf8_length stamp ≡ 6
    → decode_symbols to_upper 0 stamp ≡ some tick
    → decode to_upper stamp ≡ some (epoch + tick * 3)
unfolding decode
decode-six to_upper stamp tick l h = rw (l, h)

-- A time in the range has an automated name of nine bytes, which pruning recognises, and which
-- decodes to the time rounded down to three seconds, where `unicode.ToUpper` leaves the characters
-- of the alphabet as they are.
pub decode-automated_snapshot_name :
    (to_upper : ℕ → ℕ) (t : ℕ)
    → ((c n : ℕ) → index_of c alphabet ≡ some n → to_upper c ≡ c)
    → epoch ≤ t
    → t < epoch + ticks * 3
    → (stamp : List ℕ) × (automated_snapshot_name t ≡ some (codes "fl-" ++ stamp))
      × (is_automated_snapshot (codes "fl-" ++ stamp) ≡ true)
      × (decode to_upper stamp ≡ some (epoch + (t - epoch) / 3 * 3))
unfolding automated_snapshot_name
decode-automated_snapshot_name to_upper t fixed lo hi =
    let tick : ℕ = (t - epoch) / 3 in
    let stamp : List ℕ = encode_symbols 6 tick [] in
    (
      stamp,
      ap (λ o. elim o as (λ x. Option (List ℕ)) [ some s ↦ some (codes "fl-" ++ s) | none ↦ none ])
          (encode-some t lo hi),
      name-is_automated stamp (encode_symbols-length tick) (encode_symbols-all tick),
      decode-six to_upper stamp tick (encode_symbols-length tick)
          (decode-encode_symbols to_upper fixed tick (omega (arith, lo, hi))),
    )
