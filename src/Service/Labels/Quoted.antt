-- ===== src/Service/Labels/Quoted.antt =====
-- `json.dumps(column, ensure_ascii=False)` of a string, and `JSONDecoder().raw_decode` of one.
use data_ontology_graph.Prelude.{
  ℕ, zero, suc, ◌+◌, ◌-◌, ◌*◌, ◌/◌, ◌%◌, ◌<◌, ◌≤◌, Text, [], ◌∷◌, ◌++◌, Bool, ◌&&◌, ◌||◌, ltb, leb,
  Option, none, some, Result, ok, err, if◌then◌else◌, ◌==◌, nat_order, ◌≡◌, ◌≢◌, refl, sym, subst,
  ap, ◌∙◌, arith, Bool-cases, inl, inr, append_assoc,
}

unfoldable pub hex_char : ℕ → ℕ
hex_char d = if ltb d 10 then 48 + d else 87 + d

-- the characters that have a short escape
unfoldable pub short_escape : ℕ → Option ℕ
short_escape c =
    if c == 34
    then some 34
    else if c == 92
    then some 92
    else if c == 10
    then some 110
    else if c == 13
    then some 114
    else if c == 9
    then some 116
    else if c == 12
    then some 102
    else if c == 8
    then some 98
    else none

unfoldable pub escape_char : ℕ → Text
escape_char c = elim (short_escape c) [
  | some letter ↦ 92 ∷ letter ∷ []
  | none ↦
      if ltb c 32 then 92 ∷ 117 ∷ 48 ∷ 48 ∷ hex_char (c / 16) ∷ hex_char (c % 16) ∷ [] else c ∷ []
]

unfoldable pub escape : Text → Text
unfolding escape_char
escape [] = []
escape (c ∷ cs) = escape_char c ++ escape cs

unfoldable pub dumps : Text → Text
unfolding escape
dumps column = 34 ∷ (escape column ++ 34 ∷ [])

-- inside a string: at its next character, after a backslash, or with hexadecimal digits to come
pub data Mode : Type 0 where
  plain escaped : Mode
  hex : ℕ → ℕ → Mode

-- a high surrogate that a low one may complete
abbrev pub Pending : Type 0
Pending = Option ℕ

pub data Move : Type 0 where
  fail : Move
  done : Text → Move
  go : Text → Mode → Pending → Move

abbrev pub flush : Pending → Text → Text
flush none out = out
flush (some high) out = high ∷ out

unfoldable pub unescape : ℕ → Option ℕ
unescape c =
    if c == 34 || c == 92 || c == 47
    then some c
    else if c == 110
    then some 10
    else if c == 114
    then some 13
    else if c == 116
    then some 9
    else if c == 102
    then some 12
    else if c == 98
    then some 8
    else none

unfoldable pub hex_digit : ℕ → Option ℕ
hex_digit c =
    if leb 48 c && leb c 57
    then some (c - 48)
    else if leb 97 c && leb c 102
    then some (c - 87)
    else if leb 65 c && leb c 70
    then some (c - 55)
    else none

abbrev pub is_high : ℕ → Bool
is_high c = leb 0xd800 c && leb c 0xdbff

abbrev pub is_low : ℕ → Bool
is_low c = leb 0xdc00 c && leb c 0xdfff

unfoldable pub code_unit : Pending → ℕ → Move
code_unit none c =
    if is_high c then Move.go [] Mode.plain (some c) else Move.go (c ∷ []) Mode.plain none
code_unit (some high) c =
    if is_low c
    then Move.go ((0x10000 + (high - 0xd800) * 1024 + (c - 0xdc00)) ∷ []) Mode.plain none
    else if is_high c
    then Move.go (high ∷ []) Mode.plain (some c)
    else Move.go (high ∷ c ∷ []) Mode.plain none

unfoldable pub move : Mode → Pending → ℕ → Move
move Mode.plain pending c =
    if c == 34
    then Move.done (flush pending [])
    else if c == 92
    then Move.go [] Mode.escaped pending
    else if ltb c 32
    then Move.fail
    else Move.go (flush pending (c ∷ [])) Mode.plain none
move Mode.escaped pending c =
    if c == 117 then Move.go [] (Mode.hex 3 0) pending else elim (unescape c) [
      | none ↦ Move.fail
      | some d ↦ Move.go (flush pending (d ∷ [])) Mode.plain none
    ]
move (Mode.hex zero value) pending c = elim (hex_digit c) [
  | none ↦ Move.fail
  | some d ↦ code_unit pending (16 * value + d)
]
move (Mode.hex (suc more) value) pending c = elim (hex_digit c) [
  | none ↦ Move.fail
  | some d ↦ Move.go [] (Mode.hex more (16 * value + d)) pending
]

abbrev pub prepend : Text → Result (Unit {0}) (Text × Text) → Result (Unit {0}) (Text × Text)
prepend out (ok (name, rest)) = ok (out ++ name, rest)
prepend out (err e) = err e

unfoldable pub decode : Mode → Pending → Text → Result (Unit {0}) (Text × Text)
unfolding move
decode mode pending [] = err tt
decode mode pending (c ∷ cs) = elim (move mode pending c) [
  | fail ↦ err tt
  | done out ↦ ok (out, cs)
  | go out mode' pending' ↦ prepend out (decode mode' pending' cs)
]

-- after the opening quote
unfoldable pub raw_decode : Text → Result (Unit {0}) (Text × Text)
unfolding decode
raw_decode label = decode Mode.plain none label

hex_digit-hex_char : (d : ℕ) → d < 16 → hex_digit (hex_char d) ≡ some d
unfolding hex_digit hex_char
hex_digit-hex_char d h = ground arith

prepend-nil : (r : Result (Unit {0}) (Text × Text)) → prepend [] r ≡ r
prepend-nil (ok (name, rest)) = refl
prepend-nil (err e) = refl

decode-go :
    (m m' : Mode) (p p' : Pending) (c : ℕ) (cs out : Text)
    → move m p c ≡ Move.go out m' p'
    → decode m p (c ∷ cs) ≡ prepend out (decode m' p' cs)
unfolding decode
decode-go m m' p p' c cs out e = rw (decode, e) refl

decode-done :
    (m : Mode) (p : Pending) (c : ℕ) (cs out : Text)
    → move m p c ≡ Move.done out
    → decode m p (c ∷ cs) ≡ ok (out, cs)
unfolding decode
decode-done m p c cs out e = rw (decode, e) refl

-- a move that gives no character
decode-silent :
    (m m' : Mode) (c : ℕ) (cs : Text)
    → move m none c ≡ Move.go [] m' none
    → decode m none (c ∷ cs) ≡ decode m' none cs
decode-silent m m' c cs e = decode-go m m' none none c cs [] e ∙ prepend-nil _

move-hex :
    (more value c d : ℕ)
    → hex_digit c ≡ some d
    → move (Mode.hex (suc more) value) none c ≡ Move.go [] (Mode.hex more (16 * value + d)) none
unfolding move
move-hex more value c d e = rw (move, e) refl

move-last :
    (value c d : ℕ)
    → hex_digit c ≡ some d
    → 16 * value + d < 32
    → move (Mode.hex zero value) none c ≡ Move.go ((16 * value + d) ∷ []) Mode.plain none
unfolding move
move-last value c d e h = rw (move, e) (small (16 * value + d) h)
  where
    small : (n : ℕ) → n < 32 → code_unit none n ≡ Move.go (n ∷ []) Mode.plain none
    small n h = unfold code_unit in ground arith

abbrev ReadBack : ℕ → Text → Text → Type 0
ReadBack c out rest =
    decode Mode.plain none (out ++ rest) ≡ prepend (c ∷ []) (decode Mode.plain none rest)

high_zero : hex_digit 48 ≡ some 0
unfolding hex_digit
high_zero = refl

backslash_move : move Mode.plain none 92 ≡ Move.go [] Mode.escaped none
unfolding move
backslash_move = refl

unicode_move : move Mode.escaped none 117 ≡ Move.go [] (Mode.hex 3 0) none
unfolding move
unicode_move = refl

short_read :
    (c letter : ℕ) (rest : Text)
    → letter ≢ 117
    → unescape letter ≡ some c
    → ReadBack c (92 ∷ letter ∷ []) rest
short_read c letter rest other e =
    decode-silent Mode.plain Mode.escaped 92 (letter ∷ rest) backslash_move
    ∙ decode-go Mode.escaped Mode.plain none none letter rest (c ∷ []) (letter_move (λ q. other q))
  where
    letter_move : letter ≢ 117 → move Mode.escaped none letter ≡ Move.go (c ∷ []) Mode.plain none
    letter_move ne =
        unfold move in
        elim (Bool-cases (letter == 117)) [
          | inl same ↦ absurd (ne (ground arith))
          | inr apart ↦ rw (move, apart, e) refl
        ]

control_read :
    (c : ℕ) (rest : Text)
    → c < 32
    → ReadBack c (92 ∷ 117 ∷ 48 ∷ 48 ∷ hex_char (c / 16) ∷ hex_char (c % 16) ∷ []) rest
control_read c rest small =
    decode-silent Mode.plain Mode.escaped 92 _ backslash_move
    ∙ (decode-silent Mode.escaped (Mode.hex 3 0) 117 _ unicode_move
        ∙ (decode-silent (Mode.hex 3 0) (Mode.hex 2 0) 48 _ (move-hex 2 0 48 0 high_zero)
            ∙ (decode-silent (Mode.hex 2 0) (Mode.hex 1 0) 48 _ (move-hex 1 0 48 0 high_zero)
                ∙ (decode-silent (Mode.hex 1 0) (Mode.hex 0 (16 * 0 + c / 16)) (hex_char (c / 16)) _
                      (move-hex 0 0 (hex_char (c / 16)) (c / 16)
                        (hex_digit-hex_char (c / 16) (omega arith)))
                    ∙ (decode-go (Mode.hex 0 (16 * 0 + c / 16)) Mode.plain none none
                          (hex_char (c % 16)) rest _
                          (move-last (16 * 0 + c / 16) (hex_char (c % 16)) (c % 16)
                            (hex_digit-hex_char (c % 16) (omega arith)) (omega arith))
                        ∙ ap (λ n. prepend (n ∷ []) (decode Mode.plain none rest))
                            (omega arith))))))

raw_read : (c : ℕ) (rest : Text) → c ≢ 34 → c ≢ 92 → 32 ≤ c → ReadBack c (c ∷ []) rest
raw_read c rest quote backslash printed =
    decode-go Mode.plain Mode.plain none none c rest (c ∷ []) (raw_move quote backslash printed)
  where
    raw_move : c ≢ 34 → c ≢ 92 → 32 ≤ c → move Mode.plain none c ≡ Move.go (c ∷ []) Mode.plain none
    raw_move q b p = unfold move in ground arith

-- How each character is written.
pub data IsWritten (c : ℕ) (out : Text) : Type 0 where
  short :
      (letter : ℕ)
      → letter ≢ 117
      → unescape letter ≡ some c
      → out ≡ 92 ∷ letter ∷ []
      → IsWritten c out
  control :
      c < 32
      → out ≡ 92 ∷ 117 ∷ 48 ∷ 48 ∷ hex_char (c / 16) ∷ hex_char (c % 16) ∷ []
      → IsWritten c out
  raw : c ≢ 34 → c ≢ 92 → 32 ≤ c → out ≡ c ∷ [] → IsWritten c out

escape_char-IsWritten : (c : ℕ) → IsWritten c (escape_char c)
unfolding escape_char short_escape unescape
escape_char-IsWritten c = elim (Bool-cases (c == 34)) [
  | inl e ↦ rw (escape_char, short_escape, e) (IsWritten.short 34 (omega arith) (ground arith) refl)
  | inr a ↦ elim (Bool-cases (c == 92)) [
    | inl e ↦
        rw (escape_char, short_escape, a, e) (IsWritten.short 92 (omega arith) (ground arith) refl)
    | inr b ↦ elim (Bool-cases (c == 10)) [
      | inl e ↦
          rw (escape_char, short_escape, a, b, e)
            (IsWritten.short 110 (omega arith) (ground arith) refl)
      | inr d ↦ elim (Bool-cases (c == 13)) [
        | inl e ↦
            rw (escape_char, short_escape, a, b, d, e)
              (IsWritten.short 114 (omega arith) (ground arith) refl)
        | inr f ↦ elim (Bool-cases (c == 9)) [
          | inl e ↦
              rw (escape_char, short_escape, a, b, d, f, e)
                (IsWritten.short 116 (omega arith) (ground arith) refl)
          | inr g ↦ elim (Bool-cases (c == 12)) [
            | inl e ↦
                rw (escape_char, short_escape, a, b, d, f, g, e)
                  (IsWritten.short 102 (omega arith) (ground arith) refl)
            | inr i ↦ elim (Bool-cases (c == 8)) [
              | inl e ↦
                  rw (escape_char, short_escape, a, b, d, f, g, i, e)
                    (IsWritten.short 98 (omega arith) (ground arith) refl)
              | inr j ↦ elim (Bool-cases (ltb c 32)) [
                | inl small ↦
                    rw (escape_char, short_escape, a, b, d, f, g, i, j, small)
                      (IsWritten.control (ground arith) refl)
                | inr large ↦
                    rw (escape_char, short_escape, a, b, d, f, g, i, j, large)
                      (IsWritten.raw (ground arith) (ground arith) (ground arith) refl)
              ]
            ]
          ]
        ]
      ]
    ]
  ]
]

written_read : (c : ℕ) (out rest : Text) → IsWritten c out → ReadBack c out rest
written_read c out rest (IsWritten.short letter other e w) =
    subst (λ o. ReadBack c o rest) (sym w) (short_read c letter rest other e)
written_read c out rest (IsWritten.control small w) =
    subst (λ o. ReadBack c o rest) (sym w) (control_read c rest small)
written_read c out rest (IsWritten.raw quote backslash printed w) =
    subst (λ o. ReadBack c o rest) (sym w) (raw_read c rest quote backslash printed)

quote_move : move Mode.plain none 34 ≡ Move.done []
unfolding move
quote_move = refl

-- A string is read back from its literal, whatever follows.
pub raw_decode-escape : (s rest : Text) → raw_decode (escape s ++ 34 ∷ rest) ≡ ok (s, rest)
unfolding raw_decode escape
raw_decode-escape [] rest = decode-done Mode.plain none 34 rest [] quote_move
raw_decode-escape (c ∷ s) rest =
    ap (decode Mode.plain none) (append_assoc (escape_char c) (escape s) (34 ∷ rest))
    ∙ (written_read c (escape_char c) (escape s ++ 34 ∷ rest) (escape_char-IsWritten c)
        ∙ ap (prepend (c ∷ [])) (raw_decode-escape s rest))
