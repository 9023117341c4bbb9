-- ===== src/Samples/Serial.antt =====
-- Encodings that read back, in place of JSON.
use Prim.Native.String.{String}
use kanari_evm.Prelude.{
  ℕ, zero, suc, ◌≡◌, refl, Bool, true, false, Option, none, some, List, [], ◌∷◌, Bytes, Result, ok,
  err, length,
}
use kanari_evm.Storage.Records.{SealedBlock, StoredLog, StoredReceipt}
use kanari_evm.Storage.Engine.{Codec}

pub record Serial (A : Type 0) : Type 0 where
  pub put : A → Bytes → Bytes
  pub take_one : Bytes → Option (A × Bytes)
  pub take_one-put : (a : A) (rest : Bytes) → take_one (put a rest) ≡ some (a, rest)

abbrev pub nat_serial : Serial ℕ
nat_serial = record { put = λ n rest. n ∷ rest; take_one = head_of; take_one-put = λ n rest. refl }
  where
    head_of : Bytes → Option (ℕ × Bytes)
    head_of [] = none
    head_of (n ∷ rest) = some (n, rest)

abbrev pub mapped : {A B : Type 0} → (A → B) → Option (A × Bytes) → Option (B × Bytes)
mapped f none = none
mapped f (some (a, rest)) = some (f a, rest)

abbrev pub chained :
    {A B : Type 0} → Option (A × Bytes) → (A → Bytes → Option (B × Bytes)) → Option (B × Bytes)
chained none f = none
chained (some (a, rest)) f = f a rest

abbrev pub via :
    {A B : Type 0} → (to : B → A) (from : A → B) → ((b : B) → from (to b) ≡ b) → Serial A → Serial B
via to from back s = record {
  put = λ b rest. s.put (to b) rest;
  take_one = λ bytes. mapped from (s.take_one bytes);
  take_one-put = λ b rest. rw (s.take_one-put (to b) rest, back b) refl;
}

abbrev pub pair_serial : {A B : Type 0} → Serial A → Serial B → Serial (A × B)
pair_serial s t = record {
  put = λ p rest. s.put p.0 (t.put p.1 rest);
  take_one = λ bytes. chained (s.take_one bytes) (λ a rest. mapped (λ b. (a, b)) (t.take_one rest));
  take_one-put = λ p rest. rw (s.take_one-put p.0 (t.put p.1 rest), t.take_one-put p.1 rest) refl;
}

module _ {A : Type 0} (s : Serial A) where
  abbrev pub put_all : List A → Bytes → Bytes
  put_all [] rest = rest
  put_all (a ∷ xs) rest = s.put a (put_all xs rest)

  abbrev pub take_all : ℕ → Bytes → Option (List A × Bytes)
  take_all zero bytes = some ([], bytes)
  take_all (suc n) bytes =
      chained (s.take_one bytes) (λ a rest. mapped (λ (xs : List A). a ∷ xs) (take_all n rest))

  pub take_all-put_all :
      (xs : List A) (rest : Bytes) → take_all (length xs) (put_all xs rest) ≡ some (xs, rest)
  take_all-put_all [] rest = refl
  take_all-put_all (a ∷ xs) rest =
      rw (s.take_one-put a (put_all xs rest), take_all-put_all xs rest) refl

  abbrev pub take_list : Bytes → Option (List A × Bytes)
  take_list [] = none
  take_list (n ∷ rest) = take_all n rest

  abbrev pub list_serial : Serial (List A)
  list_serial = record {
    put = λ xs rest. length xs ∷ put_all xs rest;
    take_one = take_list;
    take_one-put = take_all-put_all;
  }

abbrev pub opt_list : {A : Type 0} → Option A → List A
opt_list none = []
opt_list (some a) = a ∷ []

abbrev pub list_opt : {A : Type 0} → List A → Option A
list_opt [] = none
list_opt (a ∷ xs) = some a

pub list_opt-opt_list : {A : Type 0} (o : Option A) → list_opt (opt_list o) ≡ o
list_opt-opt_list none = refl
list_opt-opt_list (some a) = refl

abbrev pub flag : Bool → ℕ
flag true = 1
flag false = 0

abbrev pub is_set : ℕ → Bool
is_set zero = false
is_set (suc n) = true

pub is_set-flag : (b : Bool) → is_set (flag b) ≡ b
is_set-flag true = refl
is_set-flag false = refl

abbrev pub option_serial : {A : Type 0} → Serial A → Serial (Option A)
option_serial s = via opt_list list_opt list_opt-opt_list (list_serial s)

abbrev pub bool_serial : Serial Bool
bool_serial = via flag is_set is_set-flag nat_serial

abbrev pub bytes_serial : Serial Bytes
bytes_serial = list_serial nat_serial

abbrev pub block_serial : Serial SealedBlock
block_serial =
    via
      (λ (b : SealedBlock).
        (b.number, (b.timestamp, (b.hash, (b.parent_hash, (b.txs, (b.state_root, b.base_fee)))))))
      (λ t. record {
        number = t.0;
        timestamp = t.1.0;
        hash = t.1.1.0;
        parent_hash = t.1.1.1.0;
        txs = t.1.1.1.1.0;
        state_root = t.1.1.1.1.1.0;
        base_fee = t.1.1.1.1.1.1;
      })
      (λ b. refl)
      (pair_serial nat_serial (
        pair_serial nat_serial (
          pair_serial bytes_serial (
            pair_serial bytes_serial (
              pair_serial (list_serial bytes_serial)
                (pair_serial (option_serial bytes_serial) nat_serial))))))

abbrev pub log_serial : Serial StoredLog
log_serial =
    via (λ (l : StoredLog). (l.address, (l.topics, l.content)))
      (λ t. record { address = t.0; topics = t.1.0; content = t.1.1 }) (λ l. refl)
      (pair_serial bytes_serial (pair_serial (list_serial bytes_serial) bytes_serial))

abbrev pub receipt_serial : Serial StoredReceipt
receipt_serial =
    via
      (λ (r : StoredReceipt). (
        r.tx_hash,
        (
          r.block_number,
          (
            r.block_hash,
            (r.gas_used, (r.success, (r.sender, (r.to, (r.contract_address, r.logs))))),
          ),
        ),
      ))
      (λ t. record {
        tx_hash = t.0;
        block_number = t.1.0;
        block_hash = t.1.1.0;
        gas_used = t.1.1.1.0;
        success = t.1.1.1.1.0;
        sender = t.1.1.1.1.1.0;
        to = t.1.1.1.1.1.1.0;
        contract_address = t.1.1.1.1.1.1.1.0;
        logs = t.1.1.1.1.1.1.1.1;
      })
      (λ r. refl)
      (pair_serial bytes_serial (
        pair_serial nat_serial (
          pair_serial bytes_serial (
            pair_serial nat_serial (
              pair_serial bool_serial (
                pair_serial bytes_serial (
                  pair_serial (option_serial bytes_serial)
                    (pair_serial (option_serial bytes_serial) (list_serial log_serial)))))))))

abbrev pub read_whole : {A : Type 0} → Option (A × Bytes) → Result String A
read_whole none = err "malformed"
read_whole (some (a, rest)) = ok a

pub read_whole-put :
    {A : Type 0} (s : Serial A) (a : A) (bytes : Bytes)
    → ◌≡◌ {A = Result String Bytes} (ok (s.put a [])) (ok bytes)
    → read_whole (s.take_one bytes) ≡ ok a
read_whole-put s a bytes h = let e : bytes ≡ s.put a [] = cc h in rw (e, s.take_one-put a []) refl

abbrev pub codec_of : {A : Type 0} → Serial A → Codec A
codec_of s = record {
  to_vec = λ a. ok (s.put a []);
  from_slice = λ bytes. read_whole (s.take_one bytes);
  from_slice-to_vec = read_whole-put s;
}

abbrev pub block_codec : Codec SealedBlock
block_codec = codec_of block_serial

abbrev pub receipt_codec : Codec StoredReceipt
receipt_codec = codec_of receipt_serial

abbrev pub alloc_codec : Codec (List (Bytes × ℕ))
alloc_codec = codec_of (list_serial (pair_serial bytes_serial nat_serial))
