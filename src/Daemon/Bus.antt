-- ===== src/Daemon/Bus.antt =====
-- tincd/daemon/events.go: the five event types have the same two methods over their own payload.
-- Handlers are functions on the state `W` that they work on.
use tinc_boot.Prelude.{◌≡◌, refl, List, [], ◌∷◌, ◌++◌}
use tinc_boot.Daemon.Output.{SubnetAdded, SubnetRemoved}

abbrev pub Handler : Type 0 → Type 0 → Type 0
Handler P W = P → W → W

module _ {P W : Type 0} where
  -- `Subscribe`
  unfoldable pub subscribe : Handler P W → List (Handler P W) → List (Handler P W)
  subscribe handler handlers = handlers ++ handler ∷ []

  -- `emit`
  unfoldable pub emit : List (Handler P W) → P → W → W
  emit [] payload w = w
  emit (handler ∷ handlers) payload w = emit handlers payload (handler payload w)

  emit-append :
      (hs ks : List (Handler P W)) (payload : P) (w : W)
      → emit (hs ++ ks) payload w ≡ emit ks payload (emit hs payload w)
  unfolding emit
  emit-append [] ks payload w = refl
  emit-append (h ∷ hs) ks payload w = emit-append hs ks payload (h payload w)

  -- A new handler is called after all that were there before, whose calls are not affected.
  pub emit-subscribe :
      (handler : Handler P W) (handlers : List (Handler P W)) (payload : P) (w : W)
      → emit (subscribe handler handlers) payload w ≡ handler payload (emit handlers payload w)
  unfolding subscribe emit
  emit-subscribe handler handlers payload w = emit-append handlers (handler ∷ []) payload w

-- `Events`, and a listener with a method for each; `C` is the payload of `Configured` and `Stopped`.
pub record Events (C W : Type 0) : Type 0 where
  pub configured : List (Handler C W)
  pub stopped : List (Handler C W)
  pub subnet_added : List (Handler SubnetAdded W)
  pub subnet_removed : List (Handler SubnetRemoved W)
  pub ready : List (Handler (Unit {0}) W)

pub record Listener (C W : Type 0) : Type 0 where
  pub configured : Handler C W
  pub stopped : Handler C W
  pub subnet_added : Handler SubnetAdded W
  pub subnet_removed : Handler SubnetRemoved W
  pub ready : Handler (Unit {0}) W

-- `SubscribeAll`
unfoldable pub subscribe_all : {C W : Type 0} → Listener C W → Events C W → Events C W
unfolding subscribe
subscribe_all listener bus = record {
  configured = subscribe listener.configured bus.configured;
  stopped = subscribe listener.stopped bus.stopped;
  subnet_added = subscribe listener.subnet_added bus.subnet_added;
  subnet_removed = subscribe listener.subnet_removed bus.subnet_removed;
  ready = subscribe listener.ready bus.ready;
}
