-- ===== src/AlertGenerator/Config/Usable.antt =====
-- Which configurations validateConfig of alert_generator/config/config.go accepts.
use compliance.Base.{
  ap, subst, ◌∙◌, pos, negsuc, ◌≤◌, Bool-cases, inl, inr, ℤ, ◌≡◌, ◌≢◌, ◌⊎◌, ◌↔◌, refl, sym,
  ok-injective, guarded_ok, String, false, str_eq, str_eq_iff, Option, none, some, ok, arith,
}
use compliance.AlertGenerator.Config.{
  AuthConfig, Config, port_too_large, lacks_pass, too_large, with_port, check_port, validate_config,
}

abbrev HasPass : AuthConfig → Type 0
HasPass a = (a.basic_auth_user ≡ "") ⊎ (a.basic_auth_pass ≢ "")

-- The integer is at most 65535.
abbrev FitsPort : ℤ → Type 0
FitsPort (pos p) = p ≤ 65535
FitsPort (negsuc n) = Unit {0}

-- The configuration with a port: the given one, or the default if none is given.
abbrev pub HasPort : Config → Config → Type 0
HasPort cfg cfg' =
    ((cfg.alert_reception_server_port ≡ "")
      × (cfg' ≡ record cfg { alert_reception_server_port = "8080" }))
    ⊎ ((cfg.alert_reception_server_port ≢ "") × (cfg' ≡ cfg))

-- The credentials and URLs that every configuration needs.
pub record IsUsable (cfg : Config) : Type 0 where
  pub remote_write_pass : HasPass cfg.auth.remote_write
  pub rules_and_alerts_api_pass : HasPass cfg.auth.rules_and_alerts_api
  pub query_pass : HasPass cfg.auth.query
  pub remote_write_url_set : cfg.remote_write_url ≢ ""
  pub query_base_url_set : cfg.query_base_url ≢ ""
  pub rules_and_alerts_api_base_url_set : cfg.rules_and_alerts_api_base_url ≢ ""

lacks_pass-false : (a : AuthConfig) → (lacks_pass a ≡ false) ↔ HasPass a
lacks_pass-false a =
    ground (arith, str_eq_iff a.basic_auth_user "", str_eq_iff a.basic_auth_pass "")

unset-false : (s : String) → (str_eq s "" ≡ false) ↔ (s ≢ "")
unset-false s = ground (arith, str_eq_iff s "")

too_large-false : (p : ℤ) → (too_large p ≡ false) ↔ FitsPort p
too_large-false (pos p) = ground arith
too_large-false (negsuc n) = ground arith

with_port-HasPort : (cfg cfg' : Config) → (cfg' ≡ with_port cfg) ↔ HasPort cfg cfg'
with_port-HasPort cfg cfg' = elim (Bool-cases (str_eq cfg.alert_reception_server_port "")) [
  | inl e ↦
      let empty = (str_eq_iff cfg.alert_reception_server_port "").0 e in
      (
        (λ h. inl (empty, rw e at h)),
        (λ k. elim k [ inl (p, h) ↦ rw e h | inr (p, h) ↦ absurd (p empty) ]),
      )
  | inr e ↦
      let given = (unset-false cfg.alert_reception_server_port).0 e in
      (
        (λ h. inr (given, rw e at h)),
        (λ k. elim k [ inl (p, h) ↦ absurd (given p) | inr (p, h) ↦ rw e h ]),
      )
]

-- The port is an integer that fits.
abbrev pub PortFits : (String → Option ℤ) → Config → Type 0
PortFits atoi cfg = (p : ℤ) × (atoi cfg.alert_reception_server_port ≡ some p) × FitsPort p

check_port-ok :
    (cfg cfg' : Config) (o : Option ℤ)
    → (check_port cfg o ≡ ok cfg') ↔ (((p : ℤ) × (o ≡ some p) × FitsPort p) × (cfg' ≡ cfg))
check_port-ok cfg cfg' none = ground arith
check_port-ok cfg cfg' (some p) =
    let fits = guarded_ok (too_large p) port_too_large (ok cfg) in
    (
      (λ h. ((p, refl, (too_large-false p).0 (fits.0 h).0), sym (ok-injective (fits.0 h).1))),
      (λ ((q, e, f), g).
          let same : q ≡ p = cc in
          fits.1 ((too_large-false p).1 (subst FitsPort same f), ap ok (sym g))),
    )

module _ (atoi : String → Option ℤ) where
  validate_config-ok :
      (cfg cfg' : Config)
      → (validate_config atoi cfg ≡ ok cfg')
        ↔ (IsUsable cfg × PortFits atoi (with_port cfg) × (cfg' ≡ with_port cfg))
  unfolding validate_config
  validate_config-ok cfg cfg' =
      let port =
        check_port-ok (with_port cfg) cfg' (atoi (with_port cfg).alert_reception_server_port) in
      (
        (λ h.
            let (a, h₁) = (guarded_ok (lacks_pass cfg.auth.remote_write) _ _).0 h in
            let (b, h₂) = (guarded_ok (lacks_pass cfg.auth.rules_and_alerts_api) _ _).0 h₁ in
            let (c, h₃) = (guarded_ok (lacks_pass cfg.auth.query) _ _).0 h₂ in
            let (d, h₄) = (guarded_ok (str_eq cfg.remote_write_url "") _ _).0 h₃ in
            let (e, h₅) = (guarded_ok (str_eq cfg.query_base_url "") _ _).0 h₄ in
            let (f, h₆) = (guarded_ok (str_eq cfg.rules_and_alerts_api_base_url "") _ _).0 h₅ in
            let (p, q) = port.0 h₆ in
            (
              record {
                remote_write_pass = (lacks_pass-false _).0 a;
                rules_and_alerts_api_pass = (lacks_pass-false _).0 b;
                query_pass = (lacks_pass-false _).0 c;
                remote_write_url_set = (unset-false _).0 d;
                query_base_url_set = (unset-false _).0 e;
                rules_and_alerts_api_base_url_set = (unset-false _).0 f;
              },
              p,
              q,
            )),
        (λ (u, p, q). (guarded_ok _ _ _).1 (
          (lacks_pass-false _).1 u.remote_write_pass,
          (guarded_ok _ _ _).1 (
            (lacks_pass-false _).1 u.rules_and_alerts_api_pass,
            (guarded_ok _ _ _).1 (
              (lacks_pass-false _).1 u.query_pass,
              (guarded_ok _ _ _).1 (
                (unset-false _).1 u.remote_write_url_set,
                (guarded_ok _ _ _).1 (
                  (unset-false _).1 u.query_base_url_set,
                  (guarded_ok _ _ _).1
                      ((unset-false _).1 u.rules_and_alerts_api_base_url_set, port.1 (p, q)),
                ),
              ),
            ),
          ),
        )),
      )

  -- A configuration that has a port keeps it.
  HasPort-again : (cfg cfg' : Config) → HasPort cfg cfg' → with_port cfg' ≡ cfg'
  HasPort-again cfg cfg' (inl (p, e)) = subst (λ c. with_port c ≡ c) (sym e) refl
  HasPort-again cfg cfg' (inr (p, e)) =
      subst (λ c. with_port c ≡ c) (sym e)
        (rw ((unset-false cfg.alert_reception_server_port).1 p) refl)

  IsUsable-again : (cfg cfg' : Config) → IsUsable cfg → HasPort cfg cfg' → IsUsable cfg'
  IsUsable-again cfg cfg' u (inl (p, e)) = subst IsUsable (sym e) (record {
    remote_write_pass = u.remote_write_pass;
    rules_and_alerts_api_pass = u.rules_and_alerts_api_pass;
    query_pass = u.query_pass;
    remote_write_url_set = u.remote_write_url_set;
    query_base_url_set = u.query_base_url_set;
    rules_and_alerts_api_base_url_set = u.rules_and_alerts_api_base_url_set;
  })
  IsUsable-again cfg cfg' u (inr (p, e)) = subst IsUsable (sym e) u

  -- validateConfig returns a configuration exactly when each user has a password, the three URLs
  -- are set and the port, 8080 if none is given, is an integer that is at most 65535; what it
  -- returns is the given configuration with that port, and validating it again returns it
  -- unchanged.
  pub validate_config_iff :
      (cfg cfg' : Config)
      → ((validate_config atoi cfg ≡ ok cfg')
          ↔ (IsUsable cfg × HasPort cfg cfg' × PortFits atoi cfg'))
        × (validate_config atoi cfg ≡ ok cfg' → validate_config atoi cfg' ≡ ok cfg')
  validate_config_iff cfg cfg' =
      let valid = validate_config-ok cfg cfg' in
      let port = with_port-HasPort cfg cfg' in
      (
        (
          (λ h. let (u, p, e) = valid.0 h in (u, port.0 e, subst (PortFits atoi) (sym e) p)),
          (λ (u, h, p). valid.1 (u, subst (PortFits atoi) (port.1 h) p, port.1 h)),
        ),
        (λ h.
            let (u, p, e) = valid.0 h in
            let again = HasPort-again cfg cfg' (port.0 e) in
            (validate_config-ok cfg' cfg').1 (
              IsUsable-again cfg cfg' u (port.0 e),
              subst (PortFits atoi) (sym e ∙ sym again) p,
              sym again,
            )),
      )
