-- ===== src/Push/Dispatcher.antt =====
-- src/shared/push/dispatcher.py, with `SendResult` of src/shared/push/base.py. A channel's pusher is
-- a parameter: `send` returns a result, or raises an exception with a text.
use news_project.Prelude.{
  ℕ, ◌≡◌, refl, Bool, false, Option, none, some, List, [], ◌∷◌, arith, if◌then◌else◌, elem, any,
  Text, text_eq, text_beq_iff, Option-cases, inl, inr,
}
use news_project.Prelude.Dict.{Dict, lookup, insert, lookup-insert}
use news_project.Common.Contracts.{CommonMessage}
use news_project.Push.Retry.{Outcome, returned, raised}

pub record SendResult : Type 0 where
  pub ok : Bool
  pub http_status : Option ℕ
  pub response_body : Text
  pub retries : ℕ

-- `PusherProtocol.send`
abbrev pub Pusher : Type 0
Pusher = CommonMessage → Outcome Text SendResult

-- `SendResult(ok=False, response_body=str(r))` for an exception
unfoldable pub result_of : Outcome Text SendResult → SendResult
result_of (returned r) = r
result_of (raised text) = record {
  ok = false;
  http_status = none;
  response_body = text;
  retries = 0;
}

-- What a call of a pusher comes to: what it returned, or a failed result with the text of its
-- exception, no status and no retries.
abbrev taken : Outcome Text SendResult → SendResult
taken (returned r) = r
taken (raised text) = record { ok = false; http_status = none; response_body = text; retries = 0 }

taken-result_of : (o : Outcome Text SendResult) → result_of o ≡ taken o
unfolding result_of
taken-result_of (returned r) = refl
taken-result_of (raised text) = refl

module _ (registry : Dict Text Pusher) (msg : CommonMessage) where
  -- the loop that fills `out`, after the channels that are not registered have been left out
  unfoldable pub collect : List Text → Dict Text SendResult → Dict Text SendResult
  unfolding result_of
  collect [] out = out
  collect (cid ∷ channels) out = collect channels (elim (lookup cid registry) [
    | none ↦ out
    | some send ↦ insert cid (result_of (send msg)) out
  ])

  -- `PusherDispatcher.dispatch`
  unfoldable pub dispatch : List Text → Dict Text SendResult
  unfolding collect
  dispatch channels = collect channels []

  -- The result of a registered channel.
  abbrev pub answer : Text → Option SendResult
  answer cid = elim (lookup cid registry) [ none ↦ none | some send ↦ some (taken (send msg)) ]

  abbrev or_else : Option SendResult → Option SendResult → Option SendResult
  or_else none o = o
  or_else (some r) o = some r

  lookup-collect :
      (channels : List Text) (out : Dict Text SendResult) (cid : Text)
      → lookup cid (collect channels out)
        ≡ or_else (if elem cid channels then answer cid else none) (lookup cid out)
  unfolding collect elem any
  lookup-collect [] out cid = refl
  lookup-collect (c ∷ channels) out cid = elim (Option-cases (lookup c registry)) [
    | inl absent ↦ rw absent (ground (arith, lookup-collect channels out cid, text_beq_iff cid c))
    | inr (send, e) ↦
        let out' = insert c (result_of (send msg)) out in
        rw e (
          ground (
            arith,
            lookup-collect channels out' cid,
            lookup-insert c cid (result_of (send msg)) out,
            text_beq_iff cid c,
            text_beq_iff c cid,
            taken-result_of (send msg),
          ))
  ]

  -- The result of `dispatch` has an entry for a channel exactly when the channel was asked for and is
  -- registered: what its pusher returned, or a failed result with the text of its exception, no status
  -- and no retries.
  pub lookup-dispatch :
      (channels : List Text) (cid : Text)
      → lookup cid (dispatch channels) ≡ (if elem cid channels then answer cid else none)
  unfolding dispatch
  lookup-dispatch channels cid = rw (lookup-collect channels [] cid) (unfold lookup in ground arith)
