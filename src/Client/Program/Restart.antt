-- ===== src/Client/Program/Restart.antt =====
-- cmd/agent/main.go: an agent that enrolled keeps its credential.
use rmm.Base.{
  [], Bytes, Bool, codes, text_eq, false, true, Option, none, some, ◌≡◌, ◌≢◌, refl, ap, ◌∙◌, arith,
  Bool-cases, inl, inr, text_eq_iff,
}
use rmm.Go.Strings.{has_prefix}
use rmm.Go.Os.{write_file}
use rmm.Client.State.{Agent, new_agent}
use rmm.Client.Program.{
  AgentConfig, Json, Host, AgentTls, build_tls_config, AgentFlags, connecting, load_config,
  save_config, enroll, connect, after_enroll, after_load, start,
}

module _ (json : Json) (host : Host) (flags : AgentFlags) where
  -- What a start that enrolled and connects has done.
  pub record Enrolled (url : Bytes) (tls : Option AgentTls) (agent : Agent) (file : Option Bytes)
      : Type 0 where
    pub cfg : AgentConfig
    pub answered : enroll json host flags.server flags.enroll flags.name flags.insecure ≡ some cfg
    pub saved : file ≡ some (json.encode_config cfg)
    pub same_url : url ≡ cfg.server_url
    pub same_tls : tls ≡ build_tls_config cfg flags.insecure
    pub same_agent : agent ≡ new_agent flags.name cfg.credential

  save_config_done :
      (cfg : AgentConfig)
      → (save_config json host cfg).0 ≡ true
      → (save_config json host cfg).1 ≡ some (json.encode_config cfg)
  unfolding save_config write_file
  save_config_done cfg h = ground (arith, h)

  after_enroll-Enrolled :
      (o : Option AgentConfig) (url : Bytes) (tls : Option AgentTls) (agent : Agent)
      (file : Option Bytes)
      → enroll json host flags.server flags.enroll flags.name flags.insecure ≡ o
      → after_enroll json host flags o ≡ connecting url tls agent file
      → Enrolled url tls agent file
  unfolding after_enroll connect
  after_enroll-Enrolled none url tls agent file e h = absurd (cc)
  after_enroll-Enrolled (some cfg) url tls agent file e h =
      elim (Bool-cases (save_config json host cfg).0) [
        | inl done ↦ record {
          cfg = cfg;
          answered = e;
          saved = ground (arith, h, done, save_config_done cfg done);
          same_url = ground (arith, h, done);
          same_tls = ground (arith, h, done);
          same_agent = ground (arith, h, done);
        }
        | inr failed ↦ absurd (ground (arith, h, failed))
      ]

  pub start-Enrolled :
      (url : Bytes) (tls : Option AgentTls) (agent : Agent) (file : Option Bytes)
      → flags.enroll ≢ []
      → start json host flags ≡ connecting url tls agent file
      → Enrolled url tls agent file
  unfolding start
  start-Enrolled url tls agent file asked h =
      after_enroll-Enrolled _ url tls agent file refl
        (ground (arith, h, asked, text_eq_iff flags.enroll []))

start_plain :
    (json : Json) (host : Host) (flags : AgentFlags)
    → flags.enroll ≡ []
    → start json host flags ≡ after_load host flags (load_config json host.config_file)
unfolding start
start_plain json host flags plain = ground (arith, plain, text_eq_iff flags.enroll [])

load_saved :
    (json : Json) (cfg : AgentConfig) (file : Option Bytes)
    → json.decode_config (json.encode_config cfg) ≡ some cfg
    → file ≡ some (json.encode_config cfg)
    → load_config json file ≡ some cfg
unfolding load_config
load_saved json cfg file law saved = rw saved law

pub new_agent_credential :
    (name credential : Bytes) → (new_agent name credential).credential ≡ credential
unfolding new_agent
new_agent_credential name credential = refl

-- The same TLS under another -insecure, which plays no part where there is a CA from the enrollment.
abbrev pub under : Bool → Option AgentTls → Option AgentTls
under insecure none = none
under insecure (some tls) =
    some (record tls {
      insecure_skip_verify = elim tls.root_cas [ none ↦ insecure | some ca ↦ false ];
    })

under_again :
    (cfg : AgentConfig) (insecure again : Bool)
    → under again (build_tls_config cfg insecure) ≡ build_tls_config cfg again
unfolding build_tls_config
under_again cfg insecure again = elim (Bool-cases (has_prefix cfg.server_url (codes "wss://"))) [
  | inl secure ↦ elim (Bool-cases (text_eq cfg.ca_cert [])) [
    | inl bare ↦ rw (secure, bare) refl
    | inr ca ↦ rw (secure, ca) refl
  ]
  | inr open_ws ↦ rw open_ws refl
]

-- An agent that enrolled with -enroll and reached its loop is, at a later start without -enroll that
-- finds the file it left, connected to the same URL with the same credential, and over TLS exactly if it
-- was before. With a CA from the enrollment its configuration of TLS is the same, whatever -insecure
-- says; without one the later -insecure decides whether certificates are verified. What the later
-- start is given as -server plays no part.
pub start_again :
    (json : Json) (host later : Host) (flags again : AgentFlags) (url : Bytes)
    (tls : Option AgentTls) (agent : Agent) (file : Option Bytes)
    → ((cfg : AgentConfig) → json.decode_config (json.encode_config cfg) ≡ some cfg)
    → flags.enroll ≢ []
    → start json host flags ≡ connecting url tls agent file
    → later.config_file ≡ file
    → again.enroll ≡ []
    → start json later again
      ≡ connecting url (under again.insecure tls) (new_agent again.name agent.credential) file
unfolding after_load connect
start_again json host later flags again url tls agent file law asked h kept plain =
    let w = start-Enrolled json host flags url tls agent file asked h in
    let found = load_saved json w.cfg later.config_file (law w.cfg) (kept ∙ w.saved) in
    let credential : agent.credential ≡ w.cfg.credential =
      ap (λ (a : Agent). a.credential) w.same_agent
      ∙ new_agent_credential flags.name w.cfg.credential in
    start_plain json later again plain
    ∙ (ap (after_load later again) found
        ∙ cc (
          w.same_url,
          w.same_tls,
          credential,
          kept,
          under_again w.cfg flags.insecure again.insecure,
        ))
