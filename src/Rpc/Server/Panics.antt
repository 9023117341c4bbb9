-- ===== src/Rpc/Server/Panics.antt =====
-- The inputs on which the server's task panics.
use kanari_evm.Prelude.{
  ℕ, zero, suc, ◌+◌, ◌/◌, ◌%◌, ◌≤◌, ◌<◌, ◌≡◌, refl, subst, ◌∙◌, true, false, ◌&&◌, leb, ltb, some,
  [], ◌∷◌, ◌++◌, Bytes, err, length, get_elem?, arith, Bool-cases, inl, inr,
}
use kanari_evm.Types.Text.{Text, utf8, as_bytes}
use kanari_evm.Storage.Keys.{codes}
use kanari_evm.Json.{Value, object, Fields, get}
use kanari_evm.Execution.Node.{KanariNode}
use kanari_evm.Rpc.Services.{Services}
use kanari_evm.Rpc.Server.{summary_panics, params_or_null, inner_handle_rpc, crashed}

-- ASCII characters are their own bytes.
abbrev pub IsAscii : Text → Type 0
IsAscii [] = Unit {0}
IsAscii (c ∷ s) = (c < 0x80) × IsAscii s

as_bytes-ascii : (s t : Text) → IsAscii s → as_bytes (s ++ t) ≡ s ++ as_bytes t
unfolding as_bytes utf8
as_bytes-ascii [] t h = refl
as_bytes-ascii (c ∷ s) t h =
    let small : ltb c 0x80 ≡ true = ground arith in rw (small, as_bytes-ascii s t h.1) refl

get_elem?-append_length : (s t : Bytes) (i : ℕ) → get_elem? (s ++ t) (length s + i) ≡ get_elem? t i
get_elem?-append_length [] t i = let e : 0 + i ≡ i = omega arith in rw e refl
get_elem?-append_length (c ∷ s) t i =
    let e : suc (length s) + i ≡ suc (length s + i) = omega arith in
    rw e (get_elem?-append_length s t i)

-- The second byte of a character of two to four bytes.
second_byte :
    (c : ℕ) (t : Text)
    → 0x80 ≤ c
    → c < 0x11_0000
    → (b : ℕ) × (get_elem? (as_bytes (c ∷ t)) 1 ≡ some b) × (leb 0x80 b && ltb b 0xc0 ≡ true)
unfolding as_bytes utf8
second_byte c t low high =
    let wide : ltb c 0x80 ≡ false = ground arith in
    elim (Bool-cases (ltb c 0x800)) [
      | inl two ↦ (0x80 + c % 64, rw (wide, two) refl, ground arith)
      | inr more ↦ elim (Bool-cases (ltb c 0x1_0000)) [
        | inl three ↦ (0x80 + c / 64 % 64, rw (wide, more, three) refl, ground arith)
        | inr four ↦ (0x80 + c / 4096 % 64, rw (wide, more, four) refl, ground arith)
      ]
    ]

lt_of_get_elem? : (xs : Bytes) (i : ℕ) {b : ℕ} → get_elem? xs i ≡ some b → i < length xs
lt_of_get_elem? [] i h = cc h
lt_of_get_elem? (x ∷ xs) zero h = omega arith
lt_of_get_elem? (x ∷ xs) (suc i) h = omega (arith, lt_of_get_elem? xs i h)

-- The bytes of a text around its 160th byte.
cut_character :
    (s t : Text) (c : ℕ)
    → IsAscii s
    → length s ≡ 159
    → 0x80 ≤ c
    → c < 0x11_0000
    → (b : ℕ) × (get_elem? (as_bytes (s ++ c ∷ t)) 160 ≡ some b) × (leb 0x80 b && ltb b 0xc0 ≡ true)
cut_character s t c ascii len low high =
    let (b, e, k) = second_byte c t low high in
    let at : get_elem? (as_bytes (s ++ c ∷ t)) (length s + 1) ≡ some b =
      rw (as_bytes-ascii s (c ∷ t) ascii) (get_elem?-append_length s (as_bytes (c ∷ t)) 1 ∙ e) in
    let place : length s + 1 ≡ 160 = omega arith in
    (b, subst (λ i. get_elem? (as_bytes (s ++ c ∷ t)) i ≡ some b) place at, k)

module _ (s : Services) (to_string : Value → Text) where
  open s use {machine}

  -- A request object whose parameters are printed as 159 ASCII characters, a character beyond
  -- ASCII, and any rest makes the task panic before it is served, whatever the request.
  pub inner_handle_rpc-crashed :
      (clock : ℕ → ℕ) (fields : Fields) (n : KanariNode machine) (start rest : Text) (c : ℕ)
      → to_string (params_or_null (get (codes "params") fields)) ≡ start ++ c ∷ rest
      → IsAscii start
      → length start ≡ 159
      → 0x80 ≤ c
      → c < 0x11_0000
      → inner_handle_rpc s to_string clock (object fields) n ≡ (err crashed, n)
  unfolding inner_handle_rpc
  inner_handle_rpc-crashed clock fields n start rest c printed ascii len low high =
      let (b, e, k) = cut_character start rest c ascii len low high in
      let long : 160 < length (as_bytes (start ++ c ∷ rest)) = lt_of_get_elem? _ 160 e in
      let test : ltb 160 (length (as_bytes (start ++ c ∷ rest))) ≡ true = ground arith in
      let panics : summary_panics to_string (params_or_null (get (codes "params") fields)) ≡ true =
        unfold summary_panics in rw (printed, test, e) k in
      rw panics refl
