-- ===== src/Config/Plain.antt =====
-- internal/config/config.go: what the checks of Validate that read no float accept.
use Prim.Native.String.{String}
use text.Mathlib.Text.{◌==◌ as str_eq}
use text.Mathlib.TextEquality.{eq_iff}
use flexbraid.Prelude.{
  ℕ, ◌≡◌, ◌≢◌, ◌⊎◌, inl, inr, true, not, ◌&&◌, arith, ◌<◌, ◌==◌, Bool-cases, sym, ◌∙◌, if-true,
}
use flexbraid.Config.{Crypto, Delivery, Queue, delivery_max_pending}
use flexbraid.Config.Checks.{
  accepted, checked-eq-accepted, raise_if, Within, not_outside-Within, text_or, no_wans,
  bad_server_transport,
}
use flexbraid.Config.Uplinks.{is_transport}
use flexbraid.Config.Validate.{
  Net, check_endpoints, mode_tests, delivery_tests, crypto_tests, queue_tests, check_transport,
}

pub delivery_tests-Within :
    (d : Delivery)
    → delivery_tests d ≡ accepted tt
    → Within 10 5000 d.gap_timeout_ms × Within 64 delivery_max_pending d.max_pending
unfolding delivery_tests
delivery_tests-Within d h = (
  not_outside-Within 10 5000 d.gap_timeout_ms (ground arith),
  not_outside-Within 64 4096 d.max_pending (ground arith),
)

pub mode_tests-cases :
    (mode : String) → mode_tests mode ≡ accepted tt → (mode ≡ "client") ⊎ (mode ≡ "server")
mode_tests-cases mode h = ground (arith, eq_iff mode "client", eq_iff mode "server")

pub needs_wan :
    (mode : String) (n : ℕ) {u : Unit {0}}
    → raise_if (n == 0 && str_eq mode "client") no_wans ≡ accepted u
    → (mode ≢ "client") ⊎ (0 < n)
needs_wan mode n h = ground (arith, eq_iff mode "client")

-- The address that the mode needs is given and resolves.
abbrev pub HasPeer : Net → String → String → String → Type 0
HasPeer net mode server wg_peer =
    ((mode ≡ "client") × (server ≢ "") × (net.resolves server ≡ true))
    ⊎ ((mode ≡ "server") × (wg_peer ≢ "") × (net.resolves wg_peer ≡ true))

pub check_endpoints-HasPeer :
    (net : Net) (mode listen server wg_peer : String) {u : Unit {0}}
    → (mode ≡ "client") ⊎ (mode ≡ "server")
    → check_endpoints net mode listen server wg_peer ≡ accepted u
    → ((listen ≢ "") × (net.resolves listen ≡ true)) × HasPeer net mode server wg_peer
unfolding check_endpoints
check_endpoints-HasPeer net mode listen server wg_peer (inl e) h =
    let known : str_eq mode "client" ≡ true = (eq_iff mode "client").1 e in
    (
      (ground (arith, eq_iff listen ""), ground arith),
      inl (e, ground (arith, eq_iff server ""), ground arith),
    )
check_endpoints-HasPeer net mode listen server wg_peer (inr e) h =
    let known : str_eq mode "server" ≡ true = (eq_iff mode "server").1 e in
    (
      (ground (arith, eq_iff listen ""), ground arith),
      inr (e, ground (arith, eq_iff wg_peer ""), ground arith),
    )

pub crypto_tests-key : (c : Crypto) → crypto_tests c ≡ accepted tt → c.key ≢ ""
crypto_tests-key c h = ground (arith, eq_iff c.key "")

pub queue_tests-cases :
    (q : Queue) → queue_tests q ≡ accepted tt → (q.drop ≡ "oldest") ⊎ (q.drop ≡ "newest")
queue_tests-cases q h = ground (arith, eq_iff q.drop "oldest", eq_iff q.drop "newest")

pub check_transport-cases :
    (mode given t : String)
    → check_transport mode given ≡ accepted t
    → (mode ≢ "server") ⊎ (is_transport t ≡ true)
unfolding check_transport
check_transport-cases mode given t h = elim (Bool-cases (str_eq mode "server")) [
  | inl serves ↦
      (let test = λ (t : String). raise_if (not (is_transport t)) bad_server_transport in
        let passed =
          (checked-eq-accepted (λ t. text_or t "udp") test given t
            (sym (if-true _ _ serves) ∙ h)).1 in
        inr (ground arith))
  | inr other ↦ inl (ground (arith, eq_iff mode "server"))
]
