-- ===== src/Rpc/Logs/Topics.antt =====
-- Topic filters: position by position.
use kanari_evm.Prelude.{
  ℕ, zero, suc, ◌+◌, ◌≡◌, ◌↔◌, refl, ap, true, Option, none, some, List, [], ◌∷◌, Bytes, bytes_eq,
  bytes_eq→eq, bytes_eq_self, get_elem?, arith, Bool-cases, inl, inr, subst,
}
use kanari_evm.Rpc.Logs.{contains, slot_matches, topics_match_from, topics_match}

-- An occurrence of an option.
abbrev pub IsAmong : Bytes → List Bytes → Type 0
IsAmong topic options = (j : ℕ) × (get_elem? options j ≡ some topic)

pub contains→IsAmong :
    (options : List Bytes) (topic : Bytes) → contains options topic ≡ true → IsAmong topic options
contains→IsAmong [] topic h = cc h
contains→IsAmong (y ∷ ys) topic h = elim (Bool-cases (bytes_eq y topic)) [
  | inl same ↦ (zero, ap some (bytes_eq→eq y topic same))
  | inr other ↦ let (j, at) = contains→IsAmong ys topic (rw other at h) in (suc j, at)
]

pub IsAmong→contains :
    (options : List Bytes) (topic : Bytes) → IsAmong topic options → contains options topic ≡ true
IsAmong→contains [] topic (j, h) = cc h
IsAmong→contains (y ∷ ys) topic (zero, h) =
    let e : y ≡ topic = cc h in rw (e, bytes_eq_self topic) refl
IsAmong→contains (y ∷ ys) topic (suc j, h) = elim (Bool-cases (bytes_eq y topic)) [
  | inl same ↦ rw same refl
  | inr other ↦ rw other (IsAmong→contains ys topic (j, h))
]

-- Every position that lists options has a topic of the log among them.
abbrev pub AllSlots : ℕ → List (Option (List Bytes)) → List Bytes → Type 0
AllSlots i filter topics =
    (k : ℕ) (options : List Bytes)
    → get_elem? filter k ≡ some (some options)
    → (topic : Bytes) × (get_elem? topics (i + k) ≡ some topic) × IsAmong topic options

slot_of :
    (o : Option Bytes) (options : List Bytes)
    → slot_matches (some options) o ≡ true
    → (topic : Bytes) × (o ≡ some topic) × IsAmong topic options
slot_of none options h = cc h
slot_of (some topic) options h = (topic, refl, contains→IsAmong options topic h)

topics_match_from→AllSlots :
    (filter : List (Option (List Bytes))) (i : ℕ) (topics : List Bytes)
    → topics_match_from i filter topics ≡ true
    → AllSlots i filter topics
unfolding topics_match_from
topics_match_from→AllSlots [] i topics h k options e = cc e
topics_match_from→AllSlots (slot ∷ filter) i topics h zero options e =
    let s : slot ≡ some options = cc e in
    let at : i ≡ i + zero = omega arith in
    let here : slot_matches slot (get_elem? topics i) ≡ true = ground (arith, h) in
    let (topic, found, among) = slot_of (get_elem? topics i) options (rw s at here) in
    (topic, subst (λ n. get_elem? topics n ≡ some topic) at found, among)
topics_match_from→AllSlots (slot ∷ filter) i topics h (suc k) options e =
    let at : suc i + k ≡ i + suc k = omega arith in
    let rest : topics_match_from (suc i) filter topics ≡ true = ground (arith, h) in
    let (topic, found, among) = topics_match_from→AllSlots filter (suc i) topics rest k options e in
    (topic, subst (λ n. get_elem? topics n ≡ some topic) at found, among)

AllSlots→topics_match_from :
    (filter : List (Option (List Bytes))) (i : ℕ) (topics : List Bytes)
    → AllSlots i filter topics
    → topics_match_from i filter topics ≡ true
unfolding topics_match_from
AllSlots→topics_match_from [] i topics h = refl
AllSlots→topics_match_from (slot ∷ filter) i topics h =
    rw
      (
        first slot (h zero),
        AllSlots→topics_match_from filter (suc i) topics (λ k options e.
            let (topic, found, among) = h (suc k) options e in
            let at : i + suc k ≡ suc i + k = omega arith in
            (topic, subst (λ n. get_elem? topics n ≡ some topic) at found, among)),
      )
      refl
  where
    first :
        (slot : Option (List Bytes))
        → ((options : List Bytes)
            → some slot ≡ some (some options)
            → (topic : Bytes) × (get_elem? topics (i + zero) ≡ some topic) × IsAmong topic options)
        → slot_matches slot (get_elem? topics i) ≡ true
    first none h = refl
    first (some options) h =
        let (topic, found, among) = h options refl in
        let at : i + zero ≡ i = omega arith in
        rw (subst (λ n. get_elem? topics n ≡ some topic) at found)
          (IsAmong→contains options topic among)

-- A log's topics match a filter exactly where each position of the filter that lists hashes has,
-- among them, the log's topic at that position; other positions and further topics do not matter.
pub topics_match_iff :
    (filter : List (Option (List Bytes))) (topics : List Bytes)
    → (topics_match filter topics ≡ true) ↔ AllSlots 0 filter topics
unfolding topics_match
topics_match_iff filter topics =
    (topics_match_from→AllSlots filter 0 topics, AllSlots→topics_match_from filter 0 topics)
