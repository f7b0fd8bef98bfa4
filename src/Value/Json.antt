-- ===== src/Value/Json.antt =====
-- json.dumps(value, ensure_ascii=False, separators=(",", ":")).encode("utf-8"), as bytes.
use hermes_flight_recorder.Base.{
  ltb, eqb, if◌then◌else◌, pos, str_nat, str_int, ℕ, zero, suc, ◌+◌, ◌/◌, ◌%◌, ◌^◌, code, String,
  ◌≡◌, refl, true, false, List, [], ◌∷◌, ◌++◌,
}
use hermes_flight_recorder.Value.{
  Value, null, boolean, integer, real, text, array, object, Items, nil, cons, Fields, end, field,
}

abbrev pub Bytes : Type 0
Bytes = List ℕ

-- The UTF-8 encoding of a code point.
utf8 : ℕ → Bytes
utf8 c =
    if ltb c 128
    then c ∷ []
    else if ltb c 2048
    then (192 + c / 64) ∷ (128 + c % 64) ∷ []
    else if ltb c 65536
    then (224 + c / 4096) ∷ (128 + c / 64 % 64) ∷ (128 + c % 64) ∷ []
    else (240 + c / 262144) ∷ (128 + c / 4096 % 64) ∷ (128 + c / 64 % 64) ∷ (128 + c % 64) ∷ []

unfoldable pub encode_utf8 : String → Bytes
unfolding utf8
encode_utf8 String.[] = []
encode_utf8 (String.◌∷◌ c s) = utf8 (code c) ++ encode_utf8 s

hex_digit : ℕ → ℕ
hex_digit d = if ltb d 10 then 48 + d else 87 + d

-- The escapes of the encoder: quote, backslash and the control characters.
escape : ℕ → Bytes
unfolding utf8 hex_digit
escape c =
    if eqb c 34
    then 92 ∷ 34 ∷ []
    else if eqb c 92
    then 92 ∷ 92 ∷ []
    else if eqb c 8
    then 92 ∷ 98 ∷ []
    else if eqb c 9
    then 92 ∷ 116 ∷ []
    else if eqb c 10
    then 92 ∷ 110 ∷ []
    else if eqb c 12
    then 92 ∷ 102 ∷ []
    else if eqb c 13
    then 92 ∷ 114 ∷ []
    else if ltb c 32
    then 92 ∷ 117 ∷ 48 ∷ 48 ∷ hex_digit (c / 16) ∷ hex_digit (c % 16) ∷ []
    else utf8 c

escape_all : String → Bytes
unfolding escape
escape_all String.[] = []
escape_all (String.◌∷◌ c s) = escape (code c) ++ escape_all s

quoted : String → Bytes
unfolding escape_all
quoted s = 34 ∷ (escape_all s ++ 34 ∷ [])

-- The decimals of `n` millionths: `width` digits, trailing zeros dropped.
decimals : ℕ → ℕ → Bytes
decimals zero n = []
decimals (suc width) n =
    let rest = decimals width (n % 10 ^ width) in
    if eqb n 0 then [] else (48 + n / 10 ^ width) ∷ rest

or_zero : Bytes → Bytes
or_zero [] = 48 ∷ []
or_zero (d ∷ ds) = d ∷ ds

-- repr of a float
real_repr : ℕ → Bytes
unfolding decimals or_zero encode_utf8
real_repr n = encode_utf8 (str_nat (n / 1000000)) ++ 46 ∷ or_zero (decimals 6 (n % 1000000))

unfoldable mutual
  unfolding real_repr quoted

  pub dumps : Value → Bytes
  dumps null = encode_utf8 "null"
  dumps (boolean true) = encode_utf8 "true"
  dumps (boolean false) = encode_utf8 "false"
  dumps (integer i) = encode_utf8 (str_int i)
  dumps (real n) = real_repr n
  dumps (text s) = quoted s
  dumps (array xs) = 91 ∷ (dumps_items xs ++ 93 ∷ [])
  dumps (object r) = 123 ∷ (dumps_fields r ++ 125 ∷ [])

  pub dumps_items : Items → Bytes
  dumps_items nil = []
  dumps_items (cons x nil) = dumps x
  dumps_items (cons x (cons y xs)) = dumps x ++ 44 ∷ dumps_items (cons y xs)

  pub dumps_fields : Fields → Bytes
  dumps_fields end = []
  dumps_fields (field k v end) = quoted k ++ 58 ∷ dumps v
  dumps_fields (field k v (field j w r)) =
      quoted k ++ 58 ∷ (dumps v ++ 44 ∷ dumps_fields (field j w r))

dumps_test :
    dumps (
      object (
        field "a\"é"
          (array (cons (integer (pos 12)) (cons null nil)))
          (field "t" (real 1500000) end)))
    ≡ encode_utf8 "{\"a\\\"é\":[12,null],\"t\":1.5}"
unfolding dumps dumps_items dumps_fields encode_utf8 str_int
dumps_test = refl
