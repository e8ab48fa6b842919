-- ===== src/Bus.antt =====
-- src/bus/message_bus.c: the bus with its three queues. The bus pointer is not NULL; the functions
-- that only pass a queue of the bus on to `Queue` have no definition of their own.
pub mod Queue
pub mod Positions
pub mod Fifo
pub mod Sending
pub mod Runs
pub mod Waiting
pub mod Examples
use primagen.Base.{ℕ, Bool, Option, none, some, if◌then◌else◌}
use primagen.Messages.{InboundMessage, OutboundMessage, InternalEvent}
use Queue.{
  MessageQueue, inbound, outbound, internal, message_queue_init, message_queue_close,
  message_queue_send,
}

pub record MessageBus : Type 0 where
  pub inbound_queue : MessageQueue InboundMessage
  pub outbound_queue : MessageQueue OutboundMessage
  pub internal_queue : MessageQueue InternalEvent

-- A NULL of any allocation is a NULL of the whole, after what was allocated is freed; the four
-- arguments are the answers of `malloc` at its four calls.
unfoldable pub message_bus_new : Bool → (ℕ → Bool) → (ℕ → Bool) → (ℕ → Bool) → Option MessageBus
message_bus_new bus_ok malloc_in malloc_out malloc_internal =
    if bus_ok
    then elim (message_queue_init {M = InboundMessage} malloc_in inbound) [
      | none ↦ none
      | some q_in ↦ elim (message_queue_init {M = OutboundMessage} malloc_out outbound) [
        | none ↦ none
        | some q_out ↦ elim (message_queue_init {M = InternalEvent} malloc_internal internal) [
          | none ↦ none
          | some q_internal ↦
              some (record {
                inbound_queue = q_in;
                outbound_queue = q_out;
                internal_queue = q_internal;
              })
        ]
      ]
    ]
    else none

unfoldable pub message_bus_close : MessageBus → MessageBus
message_bus_close bus = record bus {
  inbound_queue = message_queue_close bus.inbound_queue;
  outbound_queue = message_queue_close bus.outbound_queue;
  internal_queue = message_queue_close bus.internal_queue;
}

-- `!event` is `none`.
unfoldable pub message_bus_send_internal :
    (ℕ → Bool) → MessageBus → Option InternalEvent → MessageBus
message_bus_send_internal malloc bus none = bus
message_bus_send_internal malloc bus (some event) = record bus {
  internal_queue = (message_queue_send malloc bus.internal_queue event).0;
}
