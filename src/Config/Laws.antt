-- ===== src/Config/Laws.antt =====
-- What is read from the environment (internal/config/config.go).
use motekarindo_panel.Base.{
  ◌≡◌, refl, true, false, arith, Bool-cases, inl, inr, [], ◌∷◌, if◌then◌else◌,
}
use motekarindo_panel.Base.Text.{Text, txt, same, is_empty, trim_space, to_lower}
use motekarindo_panel.Base.Error.{Error, plain, ok, err}
use motekarindo_panel.Config.{
  is_yes, is_no, value, bool_value, panel_config, load_panel, agent_config, load_agent,
}

consent :
    (raw : Text)
    → (if is_empty raw
        then false
        else if is_yes (to_lower raw)
        then true
        else if is_no (to_lower raw)
        then false
        else false)
      ≡ is_yes (to_lower raw)
unfolding is_yes to_lower same
consent [] = refl
consent (c ∷ s) = elim (Bool-cases (is_yes (to_lower (c ∷ s)))) [
  | inl e ↦ ground (arith, e)
  | inr e ↦ ground (arith, e)
]

module _ (getenv : Text → Text) where
  value-filled :
      (key fallback : Text)
      → is_empty fallback ≡ false
      → is_empty (value getenv key fallback) ≡ false
  unfolding value
  value-filled key fallback h = ground arith

  -- The panel's configuration is always read, whatever the environment: the error for an empty
  -- address is never returned, as the address, the socket, the environment's name and the log
  -- level have values. Cookies are secure exactly where the variable, trimmed and in lower case,
  -- is one of the four words of consent.
  pub load_panel_lem :
      (load_panel getenv ≡ ok (panel_config getenv))
      × (is_empty (panel_config getenv).http_addr ≡ false)
      × (is_empty (panel_config getenv).agent_socket_path ≡ false)
      × (is_empty (panel_config getenv).environment ≡ false)
      × (is_empty (panel_config getenv).log_level ≡ false)
      × ((panel_config getenv).secure_cookies
          ≡ is_yes (to_lower (trim_space (getenv (txt "MOTEKAR_SECURE_COOKIES")))))
  unfolding load_panel panel_config bool_value
  load_panel_lem = (
    rw (value-filled (txt "MOTEKAR_PANEL_ADDR") (txt ":8080") refl) refl,
    value-filled _ _ refl,
    value-filled _ _ refl,
    value-filled _ _ refl,
    value-filled _ _ refl,
    consent (trim_space (getenv (txt "MOTEKAR_SECURE_COOKIES"))),
  )

  -- The agent's configuration is read exactly where the variable of the address that it no longer
  -- serves is blank.
  pub load_agent_lem :
      (is_empty (trim_space (getenv (txt "MOTEKAR_AGENT_ADDR"))) ≡ true
        → load_agent getenv ≡ ok (agent_config getenv))
      × (is_empty (trim_space (getenv (txt "MOTEKAR_AGENT_ADDR"))) ≡ false
          → (e : Error) × (load_agent getenv ≡ err e))
  unfolding load_agent agent_config
  load_agent_lem = (
    λ h.
        rw (h, value-filled (txt "MOTEKAR_AGENT_SOCKET") (txt ".cache/motekar-agent.sock") refl)
          refl,
    λ h. (
      plain (txt "MOTEKAR_AGENT_ADDR is no longer supported; use MOTEKAR_AGENT_SOCKET"),
      rw h refl,
    ),
  )
