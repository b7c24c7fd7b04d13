-- ===== src/HimProxy/Signals/Tests.antt =====
-- The signals for which a handler is registered: SIGTERM has none.
use tpt.Common.{◌≡◌, refl, pos}
use tpt.HimProxy.Signals.{register_all_signal_handler, signums}

all_handled : register_all_signal_handler (λ _. pos 0) ≡ (pos 0, signums)
unfolding register_all_signal_handler
all_handled = refl
