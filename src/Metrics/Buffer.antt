-- ===== src/Metrics/Buffer.antt =====
-- internal/metrics/consumers/otel/buffer.go: a ring buffer of events behind a mutex, and a channel
-- of capacity one that tells the consumer of a threshold. Each method holds the mutex while it
-- touches the ring, so a method is one step.
use system_agent.Prelude.{
  ℕ, Bool, true, false, List, [], Option, none, some, leb, ◌==◌, if◌then◌else◌,
}
use system_agent.Prelude.Int.{ℤ, pos, negsuc}
use system_agent.RingBuffer
use system_agent.RingBuffer.{RingBuffer}

pub record MetricsBuffer (A : Type 0) : Type 0 where
  pub rb : RingBuffer A
  pub notify_threshold : ℤ
  -- whether the channel holds a notification
  pub notify : Bool

-- `currentLen >= b.notifyThreshold`
abbrev pub reaches : ℕ → ℤ → Bool
reaches n (pos t) = leb t n
reaches n (negsuc t) = true

module _ {A : Type 0} where
  unfoldable pub new : A → ℤ → ℤ → Option (MetricsBuffer A)
  new z capacity threshold = elim (RingBuffer.new z capacity) [
    | none ↦ none
    | some rb ↦ some (record { rb = rb; notify_threshold = threshold; notify = false })
  ]

  -- The send is dropped where a notification is pending, so the flag stays set.
  unfoldable pub push : MetricsBuffer A → A → MetricsBuffer A
  push b event =
      let rb = RingBuffer.push b.rb event in
      let current_len = RingBuffer.len rb in
      if reaches current_len b.notify_threshold
      then record b { rb = rb; notify = true }
      else record b { rb = rb }

  -- The nil slice and the empty slice are both `[]`.
  unfoldable pub drain : A → MetricsBuffer A → List A × MetricsBuffer A
  drain z b =
      if RingBuffer.len b.rb == 0
      then ([], b)
      else (RingBuffer.get_all z b.rb, record b { rb = RingBuffer.clear z b.rb })

  -- A receive from `NotifyChannel`, where a notification is pending.
  unfoldable pub receive : MetricsBuffer A → MetricsBuffer A
  receive b = record b { notify = false }

  unfoldable pub len : MetricsBuffer A → ℕ
  len b = RingBuffer.len b.rb

  unfoldable pub cap : MetricsBuffer A → ℕ
  cap b = RingBuffer.cap b.rb
