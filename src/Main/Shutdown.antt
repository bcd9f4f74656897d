-- ===== src/Main/Shutdown.antt =====
-- main.rs, `shutdown_signal`: what the server waits for to stop. The signals are the operating
-- system's, which lets the program install a handler for each of the two or refuses it.
use vixy.Prelude.{◌≡◌, ◌↔◌, refl, Bool, true, false, ◌&&◌, List, [], ◌∷◌, All, if◌then◌else◌}

-- Ctrl+C, SIGTERM, and any other signal.
pub data Signal : Type 0 where
  interrupt terminate other : Signal

-- The future is still pending, has returned at a signal, or has panicked.
pub data Shutdown : Type 0 where
  pending : Shutdown
  received : Signal → Shutdown
  panicked : Shutdown

-- Both branches of `tokio::select!` wait.
abbrev select : List Signal → Shutdown
select [] = pending
select (interrupt ∷ later) = received interrupt
select (terminate ∷ later) = received terminate
select (other ∷ later) = select later

-- Each branch installs its handler when it is first polled, and `expect` panics if that fails. The
-- signals that come then are in their order.
unfoldable pub shutdown_signal : Bool → Bool → List Signal → Shutdown
shutdown_signal ctrl_c_installs terminate_installs signals =
    if ctrl_c_installs && terminate_installs then select signals else panicked

abbrev ends : Signal → Bool
ends interrupt = true
ends terminate = true
ends other = false

select_pending :
    (signals : List Signal) → All (λ s. ends s ≡ false) signals → select signals ≡ pending
select_pending [] h = refl
select_pending (interrupt ∷ later) h = absurd (cc (h.0))
select_pending (terminate ∷ later) h = absurd (cc (h.0))
select_pending (other ∷ later) h = select_pending later h.1

pending_select :
    (signals : List Signal) → select signals ≡ pending → All (λ s. ends s ≡ false) signals
pending_select [] e = tt
pending_select (interrupt ∷ later) e = absurd (cc e)
pending_select (terminate ∷ later) e = absurd (cc e)
pending_select (other ∷ later) e = (refl, pending_select later e)

-- The server goes on exactly as long as both handlers are installed and neither Ctrl+C nor SIGTERM
-- has come.
shutdown_signal-pending_iff :
    (ctrl_c_installs terminate_installs : Bool) (signals : List Signal)
    → (shutdown_signal ctrl_c_installs terminate_installs signals ≡ pending)
      ↔ ((ctrl_c_installs ≡ true) × (terminate_installs ≡ true) × All (λ s. ends s ≡ false) signals)
unfolding shutdown_signal
shutdown_signal-pending_iff true true signals =
    (λ e. (refl, refl, pending_select signals e), λ h. select_pending signals h.2)
shutdown_signal-pending_iff true false signals = (λ e. absurd (cc e), λ h. absurd (cc (h.1)))
shutdown_signal-pending_iff false _ signals = (λ e. absurd (cc e), λ h. absurd (cc (h.0)))
