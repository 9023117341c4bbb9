-- ===== src/Rpc/Server/Batches.antt =====
-- What a batch is answered with.
use kanari_evm.Prelude.{
  ℕ, suc, ◌≡◌, refl, subst, Option, none, some, List, [], ◌∷◌, Result, ok, err,
}
use kanari_evm.Json.{Value, null, array, to_list, Items, cons}
use kanari_evm.Types.Text.{Text}
use kanari_evm.Execution.Node.{KanariNode}
use kanari_evm.Rpc.Response.{RpcResponse, RpcErrorBody, Reply, failed, panic}
use kanari_evm.Rpc.Services.{Services}
use kanari_evm.Rpc.Server.{
  RpcBody, many, respond, run_named, run_method, dispatch_inner, answer_item, push_response,
  many_responses, handle_batch, inner_handle_rpc, Crash,
}
use kanari_evm.Rpc.Request.{Method, method_of, RpcRequest, request_from_value}

-- A result or an error, and never both.
abbrev pub OneOf : Option Value → Option RpcErrorBody → Type 0
OneOf (some v) none = Unit {0}
OneOf none (some e) = Unit {0}
OneOf (some v) (some e) = ⊥
OneOf none none = ⊥

-- The request's id, and `null` for what is no request.
abbrev pub id_of : Option RpcRequest → Value
id_of none = null
id_of (some req) = req.id

abbrev pub Answers : Value → RpcResponse → Type 0
Answers item r = (r.id ≡ id_of (request_from_value item)) × OneOf r.result r.error

abbrev pub AllAnswered : List Value → List RpcResponse → Type 0
AllAnswered [] [] = Unit {0}
AllAnswered [] (r ∷ rs) = ⊥
AllAnswered (item ∷ items) [] = ⊥
AllAnswered (item ∷ items) (r ∷ rs) = Answers item r × AllAnswered items rs

-- A response to the request with the id, unless the task panics.
abbrev RespondsTo : Value → Result Crash RpcResponse → Type 0
RespondsTo id (ok r) = (r.id ≡ id) × OneOf r.result r.error
RespondsTo id (err c) = Unit {0}

respond-RespondsTo : (id : Value) (reply : Reply Value) → RespondsTo id (respond id reply)
respond-RespondsTo id (ok v) = (refl, tt)
respond-RespondsTo id (err (failed body)) = (refl, tt)
respond-RespondsTo id (err panic) = tt

abbrev BatchAnswered : List Value → Result Crash (List RpcResponse) → Type 0
BatchAnswered items (ok rs) = AllAnswered items rs
BatchAnswered items (err c) = Unit {0}

push_response-BatchAnswered :
    (item : Value) (items : List Value) (first : Result Crash RpcResponse)
    (rest : Result Crash (List RpcResponse))
    → RespondsTo (id_of (request_from_value item)) first
    → BatchAnswered items rest
    → BatchAnswered (item ∷ items) (push_response first rest)
push_response-BatchAnswered item items (err c) rest h k = tt
push_response-BatchAnswered item items (ok r) (err c) h k = tt
push_response-BatchAnswered item items (ok r) (ok rs) h k = (h, k)

many_responses-eq-ok :
    (r : Result Crash (List RpcResponse)) {body : RpcBody}
    → many_responses r ≡ ok body
    → (rs : List RpcResponse) × (r ≡ ok rs) × (body ≡ many rs)
many_responses-eq-ok (ok rs) h = (rs, refl, cc h)
many_responses-eq-ok (err c) h = cc h

module _ (s : Services) where
  open s use {machine}

  answer_item-RespondsTo :
      (item : Option RpcRequest) (now : ℕ) (n : KanariNode machine)
      → RespondsTo (id_of item) (answer_item s item now n).0
  unfolding dispatch_inner
  answer_item-RespondsTo none now n = (refl, tt)
  answer_item-RespondsTo (some req) now n = named (method_of req.method)
    where
      named : (method : Option Method) → RespondsTo req.id (run_named s req method now n).0
      named none = (refl, tt)
      named (some method) = respond-RespondsTo req.id (run_method s method now req.params n).0

  handle_batch-BatchAnswered :
      (clock : ℕ → ℕ) (i : ℕ) (items : List Value) (n : KanariNode machine)
      → BatchAnswered items (handle_batch s clock i items n).0
  unfolding handle_batch
  handle_batch-BatchAnswered clock i [] n = tt
  handle_batch-BatchAnswered clock i (item ∷ items) n =
      let first = answer_item s (request_from_value item) (clock i) n in
      push_response-BatchAnswered item items first.0 (handle_batch s clock (suc i) items first.1).0
        (answer_item-RespondsTo (request_from_value item) (clock i) n)
        (handle_batch-BatchAnswered clock (suc i) items first.1)

  -- A batch that is not empty and is answered has one response for each item, in order: each has
  -- the item's id, or `null` for what is no request, and a result or an error but not both.
  pub inner_handle_rpc-AllAnswered :
      (to_string : Value → Text) (clock : ℕ → ℕ) (item : Value) (items : Items)
      (n : KanariNode machine) {body : RpcBody}
      → (inner_handle_rpc s to_string clock (array (cons item items)) n).0 ≡ ok body
      → (rs : List RpcResponse) × (body ≡ many rs) × AllAnswered (item ∷ to_list items) rs
  unfolding inner_handle_rpc
  inner_handle_rpc-AllAnswered to_string clock item items n h =
      let all : List Value = item ∷ to_list items in
      let (rs, e, k) = many_responses-eq-ok (handle_batch s clock 0 all n).0 h in
      (rs, k, subst (BatchAnswered all) e (handle_batch-BatchAnswered clock 0 all n))
