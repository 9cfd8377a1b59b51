-- ===== src/Snapshot.antt =====
-- The names of automated snapshots (pkg/store/timestamp.go). A text is its code points; an instant
-- is its second since 1970. `unicode.ToUpper` is a parameter.
pub mod RoundTrip
use floatlab_core.Base.{
  Bool, List, Option, [], all, codes, cut_prefix, false, if◌then◌else◌, ltb, nat_eq, none, not,
  some, string_eq, suc, true, zero, ℕ, ◌%◌, ◌&&◌, ◌*◌, ◌++◌, ◌+◌, ◌-◌, ◌/◌, ◌==◌, ◌||◌, ◌∷◌,
}

-- `snapshotAlphabet`
abbrev pub alphabet : List ℕ
alphabet = codes "0123456789ABCDEFGHJKMNPQRSTVWXYZ"

abbrev pub epoch : ℕ
epoch = 1735689600

abbrev pub ticks : ℕ
ticks = 1073741824

abbrev pub get_elem? : List ℕ → ℕ → Option ℕ
get_elem? [] n = none
get_elem? (c ∷ cs) zero = some c
get_elem? (c ∷ cs) (suc n) = get_elem? cs n

-- `snapshotAlphabet[n]` for n below 32.
abbrev pub symbol : ℕ → ℕ
symbol n = elim (get_elem? alphabet n) [ some c ↦ c | none ↦ 0 ]

-- The loop of the encoder, from the last character to the first.
unfoldable pub encode_symbols : ℕ → ℕ → List ℕ → List ℕ
encode_symbols zero tick out = out
encode_symbols (suc n) tick out = encode_symbols n (tick / 32) (symbol (tick % 32) ∷ out)

-- `EncodeSnapshotTimestamp`
unfoldable pub encode : ℕ → Option (List ℕ)
unfolding encode_symbols
encode t =
    if ltb t epoch || not (ltb t (epoch + ticks * 3))
    then none
    else some (encode_symbols 6 ((t - epoch) / 3) [])

-- The bytes of a code point in UTF-8.
abbrev pub rune_length : ℕ → ℕ
rune_length c = if ltb c 128 then 1 else if ltb c 2048 then 2 else if ltb c 65536 then 3 else 4

abbrev pub utf8_length : List ℕ → ℕ
utf8_length [] = 0
utf8_length (c ∷ cs) = rune_length c + utf8_length cs

-- The letters that stand for a digit.
abbrev pub unalias : ℕ → ℕ
unalias c = if c == b'O' then b'0' else if c == b'I' || c == b'L' then b'1' else c

-- `strings.IndexRune`
abbrev pub index_of : ℕ → List ℕ → Option ℕ
index_of c [] = none
index_of c (d ∷ ds) =
    let rest = index_of c ds in
    if d == c then some 0 else elim rest [ some n ↦ some (suc n) | none ↦ none ]

module _ (to_upper : ℕ → ℕ) where
  -- The loop of the decoder.
  unfoldable pub decode_symbols : ℕ → List ℕ → Option ℕ
  decode_symbols tick [] = some tick
  decode_symbols tick (c ∷ cs) = elim (index_of (unalias (to_upper c)) alphabet) [
    | none ↦ none
    | some n ↦ decode_symbols (tick * 32 + n) cs
  ]

  -- `DecodeSnapshotTimestamp`
  unfoldable pub decode : List ℕ → Option ℕ
  unfolding decode_symbols
  decode s =
      if not (utf8_length s == 6)
      then none
      else elim (decode_symbols 0 s) [ some tick ↦ some (epoch + tick * 3) | none ↦ none ]

-- `AutomatedSnapshotName`
unfoldable pub automated_snapshot_name : ℕ → Option (List ℕ)
unfolding encode
automated_snapshot_name t = elim (encode t) [
  | some stamp ↦ some (codes "fl-" ++ stamp)
  | none ↦ none
]

-- `IsAutomatedSnapshot`
unfoldable pub is_automated_snapshot : List ℕ → Bool
is_automated_snapshot name = utf8_length name == 9 && (elim (cut_prefix (codes "fl-") name) [
  | none ↦ false
  | some stamp ↦ all (λ c. elim (index_of c alphabet) [ some _ ↦ true | none ↦ false ]) stamp
])
