-- ===== src/Execution/Precompiles/Parsed.antt =====
-- What `parse_verify_input` of `crates/move-execution/src/precompiles.rs` accepts.
use kanari_evm.Prelude.{
  ℕ, suc, zero, ◌+◌, ◌*◌, ◌/◌, ◌%◌, ◌≤◌, ◌≡◌, ◌≢◌, refl, sym, ◌∙◌, ap, subst, true, false, Option,
  none, some, [], ◌∷◌, ◌++◌, Bytes, length, length-take, take, drop, is_empty, arith, Bool-cases,
  inl, inr, leb, ◌==◌, if◌then◌else◌,
}
use kanari_evm.Types.Hex.RoundTrip.{IsBytes}
use kanari_evm.Execution.Precompiles.{
  split_u16_prefix, parse_verify_input, get_to, get_from, sig_len_fits, ◌>>=◌,
}
use kanari_evm.Execution.Precompiles.Layout.{layout}

>>=-eq-some :
    {A B : Type 0} (o : Option A) (f : A → Option B) {b : B}
    → (o >>= f) ≡ some b
    → (a : A) × (o ≡ some a) × (f a ≡ some b)
>>=-eq-some none f h = cc h
>>=-eq-some (some a) f h = (a, refl, h)

get_from-eq-some :
    (n : ℕ) (xs : Bytes) {ys : Bytes} → get_from n xs ≡ some ys → (n ≤ length xs) × (ys ≡ drop n xs)
get_from-eq-some n xs h = elim (Bool-cases (leb n (length xs))) [
  | inl fits ↦ (ground arith, cc (rw fits at h))
  | inr over ↦ cc (rw over at h)
]

get_to-eq-some :
    (n : ℕ) (xs : Bytes) {ys : Bytes} → get_to n xs ≡ some ys → (n ≤ length xs) × (ys ≡ take n xs)
get_to-eq-some n xs h = elim (Bool-cases (leb n (length xs))) [
  | inl fits ↦ (ground arith, cc (rw fits at h))
  | inr over ↦ cc (rw over at h)
]

take-drop : (n : ℕ) (xs : Bytes) → take n xs ++ drop n xs ≡ xs
take-drop zero xs = refl
take-drop (suc n) [] = refl
take-drop (suc n) (x ∷ xs) = ap (λ (l : Bytes). x ∷ l) (take-drop n xs)

drop-drop :
    (n : ℕ) (xs : Bytes) (c d : ℕ) (rest : Bytes)
    → drop n xs ≡ c ∷ d ∷ rest
    → drop (n + 2) xs ≡ rest
drop-drop zero xs c d rest h = let e : zero + 2 ≡ 2 = omega arith in rw (e, h) refl
drop-drop (suc n) [] c d rest h = cc h
drop-drop (suc n) (x ∷ xs) c d rest h =
    let e : suc n + 2 ≡ suc (n + 2) = omega arith in rw e (drop-drop n xs c d rest h)

IsBytes-drop : (n : ℕ) (xs : Bytes) → IsBytes xs → IsBytes (drop n xs)
IsBytes-drop zero xs h = h
IsBytes-drop (suc n) [] h = tt
IsBytes-drop (suc n) (x ∷ xs) h = IsBytes-drop n xs h.1

-- A length prefix of two bytes is the length written out.
split_u16_prefix-eq-some :
    (xs : Bytes) (n : ℕ) (rest : Bytes)
    → IsBytes xs
    → split_u16_prefix xs ≡ some (n, rest)
    → (xs ≡ n / 256 ∷ n % 256 ∷ rest) × IsBytes rest
unfolding split_u16_prefix
split_u16_prefix-eq-some [] n rest b h = cc h
split_u16_prefix-eq-some (x ∷ []) n rest b h = cc h
split_u16_prefix-eq-some (x ∷ y ∷ xs) n rest b h =
    let e : x * 256 + y ≡ n = cc h in
    let r : xs ≡ rest = cc h in
    let hi : x ≡ n / 256 = omega (arith, b.1.0) in
    let lo : y ≡ n % 256 = omega (arith, b.1.0) in (rw (r, hi, lo) refl, subst IsBytes r b.1.1)

-- The parts put together again.
assemble :
    (rest tail body : Bytes) (n k : ℕ)
    → n ≤ length rest
    → tail ≡ drop n rest
    → tail ≡ k / 256 ∷ k % 256 ∷ body
    → k ≤ length body
    → n / 256 ∷ n % 256 ∷ rest ≡ layout (take n rest) (take k body) (drop k body)
assemble rest tail body n k fits cut head enough =
    let key_length : length (take n rest) ≡ n = omega (arith, length-take n rest) in
    let msg_length : length (take k body) ≡ k = omega (arith, length-take k body) in
    let back : take n rest ++ k / 256 ∷ k % 256 ∷ body ≡ rest =
      ap (λ (l : Bytes). take n rest ++ l) (sym head ∙ cut) ∙ take-drop n rest in
    rw (key_length, msg_length, take-drop k body, back) refl

-- The checks after the two lengths.
record Passed (key body : Bytes) (k expected_pubkey_len : ℕ) (expected_sig_len : Option ℕ)
    (pubkey msg sig : Bytes) : Type 0 where
  is_key : pubkey ≡ key
  key_length : length key ≡ expected_pubkey_len
  enough : k ≤ length body
  is_msg : msg ≡ take k body
  is_sig : sig ≡ drop k body
  filled : sig ≢ []
  sig_length : sig_len_fits expected_sig_len sig ≡ true

ne_of_is_empty : (sig : Bytes) → is_empty sig ≡ false → sig ≢ []
ne_of_is_empty [] h e = cc h
ne_of_is_empty (b ∷ sig) h e = cc e

abbrev last_checks : Bytes → Bytes → Option ℕ → Bytes → Option (Bytes × Bytes × Bytes)
last_checks key msg expected_sig_len sig =
    if is_empty sig
    then none
    else if sig_len_fits expected_sig_len sig
    then some (key, msg, sig)
    else none

last_checks-eq-some :
    (key msg : Bytes) (expected_sig_len : Option ℕ) (found : Bytes) {pubkey msg' sig : Bytes}
    → last_checks key msg expected_sig_len found ≡ some (pubkey, msg', sig)
    → (pubkey ≡ key)
      × (msg' ≡ msg)
      × (sig ≡ found)
      × (found ≢ [])
      × (sig_len_fits expected_sig_len found ≡ true)
last_checks-eq-some key msg expected_sig_len found h = elim (Bool-cases (is_empty found)) [
  | inl nothing ↦ cc (rw nothing at h)
  | inr filled ↦ elim (Bool-cases (sig_len_fits expected_sig_len found)) [
    | inl fits ↦
        let e = rw (filled, fits) at h in (cc e, cc e, cc e, ne_of_is_empty found filled, fits)
    | inr short ↦ cc (rw (filled, short) at h)
  ]
]

checks-Passed :
    (key body : Bytes) (k expected_pubkey_len : ℕ) (expected_sig_len : Option ℕ)
    {pubkey msg sig : Bytes}
    → ((if length key == expected_pubkey_len then get_to k body else none)
        >>= (λ msg. get_from k body >>= last_checks key msg expected_sig_len))
      ≡ some (pubkey, msg, sig)
    → Passed key body k expected_pubkey_len expected_sig_len pubkey msg sig
checks-Passed key body k expected_pubkey_len expected_sig_len {pubkey} {msg} {sig} h =
    elim (Bool-cases (length key == expected_pubkey_len)) [
      | inr other ↦ cc (rw other at h)
      | inl same ↦
          let (m, m1, h1) = >>=-eq-some (get_to k body) _ (rw same at h) in
          let (g, g1, h2) = >>=-eq-some (get_from k body) _ h1 in
          let (is_key, is_msg, is_sig, filled, fits) =
            last_checks-eq-some key m expected_sig_len g h2 in
          record {
            is_key = is_key;
            key_length = ground arith;
            enough = (get_to-eq-some k body m1).0;
            is_msg = is_msg ∙ (get_to-eq-some k body m1).1;
            is_sig = is_sig ∙ (get_from-eq-some k body g1).1;
            filled = subst (λ l. l ≢ []) (sym is_sig) filled;
            sig_length = subst (λ l. sig_len_fits expected_sig_len l ≡ true) (sym is_sig) fits;
          }
    ]

-- What a parsed input is.
pub record Laid (input pubkey msg sig : Bytes) (expected_pubkey_len : ℕ)
    (expected_sig_len : Option ℕ) : Type 0 where
  pub laid : input ≡ layout pubkey msg sig
  pub key_length : length pubkey ≡ expected_pubkey_len
  pub filled : sig ≢ []
  pub sig_length : sig_len_fits expected_sig_len sig ≡ true

pub parse_verify_input-Laid :
    (input : Bytes) (expected_pubkey_len : ℕ) (expected_sig_len : Option ℕ) (pubkey msg sig : Bytes)
    → IsBytes input
    → parse_verify_input input expected_pubkey_len expected_sig_len ≡ some (pubkey, msg, sig)
    → Laid input pubkey msg sig expected_pubkey_len expected_sig_len
unfolding parse_verify_input
parse_verify_input-Laid input expected_pubkey_len expected_sig_len pubkey msg sig bytes h =
    let (first, s1, h1) = >>=-eq-some (split_u16_prefix input) _ h in
    let (tail, s2, h2) = >>=-eq-some (get_from first.0 first.1) _ h1 in
    let (second, s3, h3) = >>=-eq-some (split_u16_prefix tail) _ h2 in
    let (key, s4, h4) = >>=-eq-some (get_to first.0 first.1) _ h3 in
    finish first.0 first.1 tail second.0 second.1 key
      (split_u16_prefix-eq-some input first.0 first.1 bytes s1)
      (get_from-eq-some first.0 first.1 s2) s3 (get_to-eq-some first.0 first.1 s4) h4
  where
    finish :
        (n : ℕ) (rest tail : Bytes) (k : ℕ) (body key : Bytes)
        → (input ≡ n / 256 ∷ n % 256 ∷ rest) × IsBytes rest
        → (n ≤ length rest) × (tail ≡ drop n rest)
        → split_u16_prefix tail ≡ some (k, body)
        → (n ≤ length rest) × (key ≡ take n rest)
        → ((if length key == expected_pubkey_len then get_to k (drop (n + 2) rest) else none)
            >>= (λ msg. get_from k (drop (n + 2) rest) >>= last_checks key msg expected_sig_len))
          ≡ some (pubkey, msg, sig)
        → Laid input pubkey msg sig expected_pubkey_len expected_sig_len
    finish n rest tail k body key whole cut second is_key h =
        let (head, more) =
          split_u16_prefix-eq-some tail k body
            (subst IsBytes (sym cut.1) (IsBytes-drop n rest whole.1)) second in
        let p : Passed key body k expected_pubkey_len expected_sig_len pubkey msg sig =
          checks-Passed key body k expected_pubkey_len expected_sig_len
            (rw (drop-drop n rest (k / 256) (k % 256) body (sym cut.1 ∙ head)) at h) in
        let key_is : pubkey ≡ take n rest = p.is_key ∙ is_key.1 in
        record {
          laid =
              rw (key_is, p.is_msg, p.is_sig)
                (whole.0 ∙ assemble rest tail body n k cut.0 cut.1 head p.enough);
          key_length = ap length p.is_key ∙ p.key_length;
          filled = p.filled;
          sig_length = p.sig_length;
        }
