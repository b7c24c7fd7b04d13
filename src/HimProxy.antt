-- ===== src/HimProxy.antt =====
-- src/networking/himproxy: a transparent proxy. A parent process starts children and restarts the ones
-- that fail (Children: core.c, main.c and signal_handler.c); each child waits for events on its sockets
-- (Events: core.c) and reads what its clients send (Receive: core.c). Network is network.c,
-- Poller is poller.c, Start the event loop of a child, Signals the handlers of signals, and Main, the start of the
-- parent, is main.c.
pub mod Children
mod Receive
mod Network
mod Events
mod Main
pub mod Poller
mod Start
mod Signals

-- What a loop over the answers of the system comes to: it returns, it still waits for an answer, or it
-- has left an array or used a NULL pointer.
pub data Run {ℓ} (A : Type ℓ) : Type ℓ where
  done : A → Run A
  running : Run A
  fault : Run A
