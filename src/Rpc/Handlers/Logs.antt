-- ===== src/Rpc/Handlers/Logs.antt =====
-- What `eth_getLogs` of `crates/server_rpc/src/rpc.rs` answers.
use kanari_evm.Prelude.{
  ℕ, ◌+◌, ◌-◌, ◌≤◌, ◌≡◌, refl, sym, ap, true, Option, none, some, List, [], ◌∷◌, Bytes, ok, err,
  ok_injective, get_elem?, >>=-eq-ok, Bool-cases, inl, inr, subst,
}
use kanari_evm.Json.{Value, Fields, array, of_list}
use kanari_evm.Execution.Node.{KanariNode, block_number}
use kanari_evm.Execution.Seal.Chain.{IsValid}
use kanari_evm.Rpc.Logs.{SealedLog, keep, address_matches, logs_in_range}
use kanari_evm.Rpc.Logs.Topics.{
  IsAmong, contains→IsAmong, IsAmong→contains, AllSlots, topics_match_iff,
}
use kanari_evm.Rpc.Logs.Range.{ranged_logs, logs_in_range_ranged}
use kanari_evm.Rpc.Params.{
  Parsed, invalid, panicked, log_range_from_json, log_addresses, log_topics,
}
use kanari_evm.Rpc.Params.Ranges.{log_range_from_json-le}
use kanari_evm.Rpc.Response.{of_parsed}
use kanari_evm.Rpc.Services.{Services}
use kanari_evm.Rpc.Views.Parts.{render_logs}
use kanari_evm.Rpc.Handlers.Accounts.{arguments}
use kanari_evm.Rpc.Handlers.Blocks.{fields_of, get_logs_json, log_passes}

of_parsed-eq-ok : {A : Type 0} (r : Parsed A) {a : A} → of_parsed r ≡ ok a → r ≡ ok a
of_parsed-eq-ok (ok a) h = ap ok (ok_injective h)
of_parsed-eq-ok (err (invalid message)) h = cc h
of_parsed-eq-ok (err panicked) h = cc h

-- A filter without addresses takes those of all contracts.
abbrev pub IsWanted : Option (List Bytes) → Bytes → Type 0
IsWanted none address = Unit {0}
IsWanted (some addresses) address = IsAmong address addresses

address_matches→IsWanted :
    (addresses : Option (List Bytes)) (address : Bytes)
    → address_matches addresses address ≡ true
    → IsWanted addresses address
address_matches→IsWanted none address h = tt
address_matches→IsWanted (some addresses) address h = contains→IsAmong addresses address h

IsWanted→address_matches :
    (addresses : Option (List Bytes)) (address : Bytes)
    → IsWanted addresses address
    → address_matches addresses address ≡ true
IsWanted→address_matches none address h = refl
IsWanted→address_matches (some addresses) address h = IsAmong→contains addresses address h

-- What a filter asks of a log.
abbrev pub IsMatch : Option (List Bytes) → List (Option (List Bytes)) → SealedLog → Type 0
IsMatch addresses topics l = IsWanted addresses l.log.address × AllSlots 0 topics l.log.topics

-- The second list has exactly those logs of the first that pass, in their order.
pub data Selects (addresses : Option (List Bytes)) (topics : List (Option (List Bytes)))
    : List SealedLog → List SealedLog → Type 0 where
  no_logs : Selects addresses topics [] []
  taken :
      {l : SealedLog} {logs found : List SealedLog}
      → IsMatch addresses topics l
      → Selects addresses topics logs found
      → Selects addresses topics (l ∷ logs) (l ∷ found)
  left_out :
      {l : SealedLog} {logs found : List SealedLog}
      → ¬ IsMatch addresses topics l
      → Selects addresses topics logs found
      → Selects addresses topics (l ∷ logs) found

module _ (s : Services) where
  open s use {machine, forms}

  log_passes→IsMatch :
      (addresses : Option (List Bytes)) (topics : List (Option (List Bytes))) (l : SealedLog)
      → log_passes s addresses topics l ≡ true
      → IsMatch addresses topics l
  log_passes→IsMatch addresses topics l h =
      elim (Bool-cases (address_matches addresses l.log.address)) [
        | inl e ↦ (
          address_matches→IsWanted addresses l.log.address e,
          (topics_match_iff topics l.log.topics).0 (rw e at h),
        )
        | inr e ↦ cc (rw e at h)
      ]

  IsMatch→log_passes :
      (addresses : Option (List Bytes)) (topics : List (Option (List Bytes))) (l : SealedLog)
      → IsMatch addresses topics l
      → log_passes s addresses topics l ≡ true
  IsMatch→log_passes addresses topics l (wanted, slots) =
      rw
        (
          IsWanted→address_matches addresses l.log.address wanted,
          (topics_match_iff topics l.log.topics).1 slots,
        )
        refl

  keep-Selects :
      (addresses : Option (List Bytes)) (topics : List (Option (List Bytes)))
      (logs : List SealedLog)
      → Selects addresses topics logs (keep (log_passes s addresses topics) logs)
  keep-Selects addresses topics [] = no_logs
  keep-Selects addresses topics (l ∷ logs) = elim (Bool-cases (log_passes s addresses topics l)) [
    | inl e ↦
        rw e (taken (log_passes→IsMatch addresses topics l e) (keep-Selects addresses topics logs))
    | inr e ↦ rw e (
        left_out (λ p. let t = IsMatch→log_passes addresses topics l p in cc (e, t))
          (keep-Selects addresses topics logs))
  ]

  -- An answer with the logs of a range: what the filter of the first argument reads as, and the logs
  -- of the chain's blocks in the range, which ends at the head at most, that pass it.
  pub record Answers (params : Value) (n : KanariNode machine) (v : Value) : Type 0 where
    pub from : ℕ
    pub to : ℕ
    pub addresses : Option (List Bytes)
    pub topics : List (Option (List Bytes))
    pub range_read :
        log_range_from_json forms machine
          (fields_of (get_elem? (arguments params) 0))
          (block_number machine n)
          n
        ≡ ok (from, to)
    pub addresses_read :
        log_addresses forms (fields_of (get_elem? (arguments params) 0)) ≡ ok addresses
    pub topics_read : log_topics forms (fields_of (get_elem? (arguments params) 0)) ≡ ok topics
    pub within : to ≤ block_number machine n
    pub found : List SealedLog
    pub selected :
        Selects addresses topics (ranged_logs machine n from (to + 1 - from) n.blocks) found
    pub shown : v ≡ array (of_list (render_logs forms found))

  -- On a valid node an answer of `eth_getLogs` shows exactly those logs of the chain, in its order,
  -- whose block is from the first to the second bound that the filter reads as, whose contract is
  -- among the filter's addresses, where it has any, and whose topics have, at each position for which
  -- the filter lists hashes, one of them. The second bound is at most the head's number.
  pub get_logs_json-Answers :
      (params : Value) (n : KanariNode machine) (v : Value)
      → IsValid machine n
      → get_logs_json s params n ≡ ok v
      → Answers params n v
  unfolding get_logs_json
  get_logs_json-Answers params n v valid h =
      let filter : Fields = fields_of (get_elem? (arguments params) 0) in
      let (range, e1, h1) =
        >>=-eq-ok (of_parsed (log_range_from_json forms machine filter (block_number machine n) n))
          _ h in
      let (addresses, e2, h2) = >>=-eq-ok (of_parsed (log_addresses forms filter)) _ h1 in
      let (topics, e3, h3) = >>=-eq-ok (of_parsed (log_topics forms filter)) _ h2 in
      let range_read = of_parsed-eq-ok _ e1 in
      record {
        from = range.0;
        to = range.1;
        addresses = addresses;
        topics = topics;
        range_read = range_read;
        addresses_read = of_parsed-eq-ok _ e2;
        topics_read = of_parsed-eq-ok _ e3;
        within = log_range_from_json-le forms machine filter n valid range_read;
        found = keep (log_passes s addresses topics) (logs_in_range machine n range.0 range.1);
        selected =
            subst
              (λ logs.
                Selects addresses topics logs
                  (keep (log_passes s addresses topics) (logs_in_range machine n range.0 range.1)))
              (logs_in_range_ranged machine n range.0 range.1 valid)
              (keep-Selects addresses topics (logs_in_range machine n range.0 range.1));
        shown = sym (ok_injective h3);
      }
