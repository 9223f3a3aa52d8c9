-- ===== src/Digest.antt =====
-- src/news_pipeline/storage/dao/digest_buffer.py, and `send_digest` of scheduler/jobs.py. The table
-- is the list of its rows; times are whole ticks.
pub mod Drained
mod Tests
use news_project.Prelude.{
  ℕ, ◌+◌, Bool, true, false, ◌&&◌, Option, none, some, List, [], ◌∷◌, ◌++◌, map, keep, any, leb,
  nat_beq, nat_eq, if◌then◌else◌, is_empty, length, gather, Text, text_beq,
}
use news_project.Prelude.Dict.{Dict, lookup}
use news_project.Common.Contracts.{CommonMessage}
use news_project.Push.Dispatcher.{Pusher, SendResult, dispatch}

pub record DigestBuffer : Type 0 where
  pub id : ℕ
  pub news_id : ℕ
  pub market : Text
  pub scheduled_digest : Text
  pub added_at : ℕ
  pub consumed_at : Option ℕ

-- `DigestBufferDAO.enqueue`; the database chooses the id, and refuses a second row for one news
-- item, when the call raises
unfoldable pub enqueue : ℕ → ℕ → ℕ → Text → Text → List DigestBuffer → Option (List DigestBuffer)
enqueue id now news_id market scheduled_digest rows =
    if any (λ (r : DigestBuffer). nat_beq r.news_id news_id) rows
    then none
    else some (
        rows
        ++ record {
          id = id;
          news_id = news_id;
          market = market;
          scheduled_digest = scheduled_digest;
          added_at = now;
          consumed_at = none;
        }
          ∷ [])

-- `consumed_at.is_(None)`
unfoldable pub is_open : Option ℕ → Bool
is_open none = true
is_open (some at) = false

-- the `where` clause of `list_pending`
unfoldable pub is_pending : Text → DigestBuffer → Bool
unfolding is_open
is_pending key row = text_beq row.scheduled_digest key && is_open row.consumed_at

-- `order_by(added_at)`; rows of one time keep the order of the table
unfoldable pub put_by_time : DigestBuffer → List DigestBuffer → List DigestBuffer
put_by_time row [] = row ∷ []
put_by_time row (r ∷ rows) =
    let rest = put_by_time row rows in
    if leb row.added_at r.added_at then row ∷ r ∷ rows else r ∷ rest

unfoldable pub order_by_time : List DigestBuffer → List DigestBuffer
unfolding put_by_time
order_by_time [] = []
order_by_time (row ∷ rows) = put_by_time row (order_by_time rows)

-- `DigestBufferDAO.list_pending`
unfoldable pub list_pending : Text → List DigestBuffer → List DigestBuffer
unfolding is_pending order_by_time
list_pending key rows = order_by_time (keep (is_pending key) rows)

-- one round of the loop of `mark_consumed`; an id is that of one row
unfoldable pub mark_row : ℕ → ℕ → DigestBuffer → DigestBuffer
mark_row now id row = if nat_beq row.id id then record row { consumed_at = some now } else row

-- `DigestBufferDAO.mark_consumed`
unfoldable pub mark_consumed : ℕ → List ℕ → List DigestBuffer → List DigestBuffer
unfolding mark_row
mark_consumed now [] rows = rows
mark_consumed now (id ∷ ids) rows = mark_consumed now ids (map (mark_row now id) rows)

-- What a digest job did: the number that it returns, and what it sent with which results.
pub record Digested : Type 0 where
  pub count : ℕ
  pub sent : Option (CommonMessage × Dict Text SendResult)

-- `proc = await proc_dao.get(...)`, and `items.append(proc)` unless it is None
unfoldable pub found_item : {P : Type 0} → Dict ℕ P → DigestBuffer → List P
found_item procs row = elim (lookup row.news_id procs) [ none ↦ [] | some proc ↦ proc ∷ [] ]

module _ {P : Type 0} (procs : Dict ℕ P) (build_digest : List P → CommonMessage)
    (registry : Dict Text Pusher) (channels : List Text) where
  -- from `consumed_ids` on
  unfoldable pub send_items :
      ℕ → List DigestBuffer → List P → List DigestBuffer → Digested × List DigestBuffer
  unfolding mark_consumed
  send_items now pending [] rows = (
    record { count = 0; sent = none },
    mark_consumed now (map (λ (r : DigestBuffer). r.id) pending) rows,
  )
  send_items now pending (item ∷ items) rows =
      let msg = build_digest (item ∷ items) in
      (
        record { count = length (item ∷ items); sent = some (msg, dispatch registry msg channels) },
        mark_consumed now (map (λ (r : DigestBuffer). r.id) pending) rows,
      )

  -- `send_digest` on the rows that `list_pending` gave
  unfoldable pub send_pending :
      ℕ → List DigestBuffer → List DigestBuffer → Digested × List DigestBuffer
  unfolding send_items found_item
  send_pending now [] rows = (record { count = 0; sent = none }, rows)
  send_pending now (r ∷ pending) rows =
      send_items now (r ∷ pending) (gather (found_item procs) (r ∷ pending)) rows

  -- `send_digest`, with the time and the digest's key; the market is in `build_digest`
  unfoldable pub send_digest : ℕ → Text → List DigestBuffer → Digested × List DigestBuffer
  unfolding send_pending list_pending
  send_digest now key rows = send_pending now (list_pending key rows) rows
