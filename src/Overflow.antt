-- ===== src/Overflow.antt =====
-- The policy pipe (bin/longtrader-worker/src/overflow.rs). The bounded channel behind it is part of the
-- state: what is queued in it, what its receiver has taken out, and whether the receiver is gone. A send
-- into it waits for room; `takes` is how many items the receiver takes out during such a wait, and `none`
-- a send that waits on.
pub mod Blocking
pub mod Kept
use longtrader.Prelude.{
  ℕ, ◌+◌, max, ltb, length, Bool, true, false, not, List, [], ◌∷◌, ◌++◌, map, take, drop, Option,
  none, some, if◌then◌else◌,
}
use longtrader.Ports.{OverflowPolicy, drop_oldest, coalesce, block}

-- `PipeState`, with the channel that `tx` leads to, whose capacity is `cap` too.
pub record Pipe (K T : Type 0) : Type 0 where
  pub buf : List (K × T)
  pub cap : ℕ
  pub policy : OverflowPolicy
  pub source_closed : Bool
  pub queued : List T
  pub received : List T
  pub receiver_gone : Bool

module _ {K T : Type 0} where
  unfoldable pub policy_channel : ℕ → OverflowPolicy → Pipe K T
  policy_channel cap policy = record {
    buf = [];
    cap = max cap 1;
    policy = policy;
    source_closed = false;
    queued = [];
    received = [];
    receiver_gone = false;
  }

  -- `while buf.len() > cap { buf.pop_front(); }`
  unfoldable pub trim : ℕ → List (K × T) → List (K × T)
  trim cap [] = []
  trim cap (entry ∷ buf) =
      let rest = trim cap buf in if ltb cap (length buf + 1) then rest else entry ∷ buf

  -- The receiver takes out what is oldest.
  unfoldable pub receive : ℕ → Pipe K T → Pipe K T
  receive n p = record p { received = p.received ++ take n p.queued; queued = drop n p.queued }

  -- `tx.send(item).await` on a channel whose receiver lives.
  unfoldable pub deliver : (Pipe K T → ℕ) → T → Pipe K T → Option (Pipe K T)
  unfolding receive
  deliver takes item p =
      let ready = if ltb (length p.queued) p.cap then p else receive (takes p) p in
      if ltb (length ready.queued) ready.cap
      then some (record ready { queued = ready.queued ++ (item ∷ []) })
      else none

  unfoldable pub deliver_all : (Pipe K T → ℕ) → List T → Pipe K T → Option (Pipe K T)
  unfolding deliver
  deliver_all takes [] p = some p
  deliver_all takes (item ∷ items) p = elim (deliver takes item p) [
    | none ↦ none
    | some next ↦ deliver_all takes items next
  ]

  -- `for (_, item) in drained { tx.send(item) }`, which stops once the receiver is gone.
  unfoldable pub drain : (Pipe K T → ℕ) → Pipe K T → Option (Pipe K T)
  unfolding deliver_all
  drain takes p =
      let emptied = record p { buf = [] } in
      if p.receiver_gone then some emptied else deliver_all takes (map (λ e. e.1) p.buf) emptied

  -- One round of `forward_loop`, and whether the loop goes on: a closed source ends it after a last
  -- drain, a gone receiver when an item could not be sent, and an empty buffer waits.
  unfoldable pub forward_round : (Pipe K T → ℕ) → Pipe K T → Option (Pipe K T × Bool)
  unfolding drain
  forward_round takes p =
      let drained = drain takes p in
      if p.source_closed
      then elim drained [ none ↦ none | some q ↦ some (q, false) ]
      else elim p.buf [
        | [] ↦ some (p, true)
        | e ∷ es ↦ elim drained [ none ↦ none | some q ↦ some (q, not p.receiver_gone) ]
      ]

  unfoldable pub close : Pipe K T → Pipe K T
  close p = record p { source_closed = true }

  module _ (same : K → K → Bool) (key_of : T → K) where
    -- The first buffered item with the key is replaced; `none` if there is none.
    unfoldable pub replace : K → T → List (K × T) → Option (List (K × T))
    replace key item [] = none
    replace key item ((k, old) ∷ buf) =
        if same k key
        then some ((k, item) ∷ buf)
        else elim (replace key item buf) [ none ↦ none | some buf' ↦ some ((k, old) ∷ buf') ]

    unfoldable pub push_coalesced : ℕ → K → T → List (K × T) → List (K × T)
    unfolding replace trim
    push_coalesced cap key item buf = elim (replace key item buf) [
      | some buf' ↦ buf'
      | none ↦ trim cap (buf ++ ((key, item) ∷ []))
    ]

    -- The `match` of `send` on the policy, for an open receiver.
    unfoldable pub send_open : (Pipe K T → ℕ) → OverflowPolicy → T → Pipe K T → Option (Pipe K T)
    unfolding push_coalesced trim deliver
    send_open takes block item p = deliver takes item p
    send_open takes drop_oldest item p =
        some (record p { buf = trim p.cap (p.buf ++ ((key_of item, item) ∷ [])) })
    send_open takes coalesce item p =
        some (record p { buf = push_coalesced p.cap (key_of item) item p.buf })

    -- `PolicySender::send`: whether the item was accepted.
    unfoldable pub send : (Pipe K T → ℕ) → T → Pipe K T → Option (Pipe K T × Bool)
    unfolding send_open
    send takes item p =
        if p.receiver_gone
        then some (p, false)
        else elim (send_open takes p.policy item p) [ none ↦ none | some q ↦ some (q, true) ]
