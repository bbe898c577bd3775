-- ===== src/Dashboard/Broker.antt =====
-- internal/dashboard/broker.go and the queue of workers.go. A channel is the list of what it holds.
use kubeguard.Prelude.{
  ℕ, suc, String, not, List, [], ◌∷◌, ◌++◌, map, Option, none, some, ◌==◌, nat_eq, ltb,
  if◌then◌else◌, length, filter,
}

-- `progress` in percent.
pub record Event : Type 0 where
  pub kind : String
  pub cluster_id : String
  pub scan_id : String
  pub progress : ℕ
  pub message : String

-- A subscriber has a number in place of its address.
pub record Subscriber : Type 0 where
  pub number : ℕ
  pub tenant : String
  pub ch : List Event

-- `next` is above all numbers in use.
pub record Broker : Type 0 where
  pub subs : List Subscriber
  pub next : ℕ

-- `make(chan Event, 16)`
abbrev pub buffer_size : ℕ
buffer_size = 16

unfoldable pub subscribe : String → Broker → ℕ × Broker
subscribe tenant b = (
  b.next,
  record {
    subs = record { number = b.next; tenant = tenant; ch = [] } ∷ b.subs;
    next = suc b.next;
  },
)

-- The function that `Subscribe` returns.
unfoldable pub unsubscribe : ℕ → Broker → Broker
unfolding filter
unsubscribe n b = record b { subs = filter (λ s. not (nat_eq s.number n)) b.subs }

-- `select { case s.ch <- ev: default: }`
unfoldable pub offer : Event → Subscriber → Subscriber
offer ev s = if ltb (length s.ch) buffer_size then record s { ch = s.ch ++ ev ∷ [] } else s

unfoldable pub publish_to : String → Event → Subscriber → Subscriber
unfolding offer
publish_to tenant ev s = if not (s.tenant == tenant) then s else offer ev s

unfoldable pub publish : String → Event → Broker → Broker
unfolding publish_to
publish tenant ev b = record b { subs = map (publish_to tenant ev) b.subs }

pub record ScanJob : Type 0 where
  pub tenant : String
  pub cluster_id : String
  pub subject : String
  pub scan_id : String

-- `enqueue` on the jobs of a queue of the size: the jobs after it, where it returns true.
unfoldable pub enqueue : ℕ → ScanJob → List ScanJob → Option (List ScanJob)
enqueue queue_size j jobs = if ltb (length jobs) queue_size then some (jobs ++ j ∷ []) else none
