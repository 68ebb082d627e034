-- ===== src/Server/Admission.antt =====
-- cmd/server/handler_agent.go: which agents are let in.
pub mod Viewers
use rmm.Base.{
  sym, ◌∙◌, ◌≢◌, ℕ, ◌≡◌, refl, ◌≢◌, ◌↔◌, List, [], ◌∷◌, Bytes, codes, ◌==◌, ==_iff, text_eq,
  text_eq_iff, text_eq_refl, if◌then◌else◌, Bool, true, false, not, Option, none, some, arith,
  Bool-cases, Option-cases, inl, inr, if_rule,
}
use rmm.Base.Map.{get, bytes_eq, nat_eq}
use rmm.Http.{Request, Response, failed}
use rmm.Protocol.Frame.{Frame, op_text}
use rmm.Protocol.Message.{Message, Registration}
use rmm.Store.{AgentRecord, ApiKey, Call, ok}
use rmm.Store
use rmm.Security.Platform.{Platform, verify_credential, credential_hash}
use rmm.Security.Platform
use rmm.Security.Token.{hash_api_key}
use rmm.Server.State.{Services, Server}
use rmm.Server.Upgrade.{Hijack, Upgrade, upgraded, err, upgrade_websocket}
use rmm.Server.Agent.{
  ◌>>=◌, guard, verified, found, check_registration, register_agent, handle_agent,
}
use rmm.Server.Viewer.{is_known, connect_viewer, open_viewer, handle_viewer}

>>=-some_elim :
    {A B : Type 0} {P : Type 0} (o : Option A) (f : A → Option B) (b : B)
    → o >>= f ≡ some b
    → ((a : A) → o ≡ some a → f a ≡ some b → P)
    → P
>>=-some_elim none f b e k = absurd (cc)
>>=-some_elim (some a) f b e k = k a refl e

some-injective :
    {A B : Type 0} (x a : A) (y b : B)
    → ◌≡◌ {A = Option (A × B)} (some (x, y)) (some (a, b))
    → (x ≡ a) × (y ≡ b)
some-injective x a y b e = (cc, cc)

guard-some : (b : Bool) (u : Unit {0}) → guard b ≡ some u → b ≡ true
guard-some true u e = refl
guard-some false u e = absurd (cc)

verified-some : (r : Platform.Result Bytes) (id : Bytes) → verified r ≡ some id → r ≡ Platform.ok id
verified-some (Platform.ok x) id e = ground arith
verified-some (Platform.err x) id e = absurd (cc)

found-some :
    (r : Store.Result (Option AgentRecord)) (a : AgentRecord) → found r ≡ some a → r ≡ ok (some a)
found-some (Store.ok o) a e = ground arith
found-some (Store.err x) a e = absurd (cc)

module _ {S : Type 0} (services : Services S) (call : Call) where
  -- A frame that registers an agent: what it decodes to, and what its credential proves.
  pub record Proof (platform : Platform) (db : S) (frame : Option Frame) (enrolled : AgentRecord)
      (reg : Registration) : Type 0 where
    pub read : Frame
    pub msg : Message
    pub agent_id : Bytes
    pub frame_read : frame ≡ some read
    pub is_text : read.opcode ≡ op_text
    pub decoded : services.decode_message read.payload ≡ some msg
    pub is_register : msg.kind ≡ codes "register"
    pub decoded_registration : services.decode_registration msg.payload ≡ some reg
    pub is_signed : verify_credential services.sha512 platform reg.credential ≡ Platform.ok agent_id
    pub is_enrolled :
        services.store.get_agent_by_credential call
          (credential_hash services.sha256 reg.credential)
          db
        ≡ ok (some enrolled)

  check_registration_to :
      (platform : Platform) (db : S) (frame : Option Frame) (enrolled : AgentRecord)
      (reg : Registration)
      → check_registration services call platform db frame ≡ some (enrolled, reg)
      → Proof platform db frame enrolled reg
  unfolding check_registration
  check_registration_to platform db frame enrolled reg e =
      >>=-some_elim _ _ (enrolled, reg) e
        λ f frame_read e₁.
          >>=-some_elim _ _ (enrolled, reg) e₁
            λ _ text e₂.
              >>=-some_elim _ _ (enrolled, reg) e₂
                λ msg decoded e₃.
                  >>=-some_elim _ _ (enrolled, reg) e₃
                    λ _ register e₄.
                      >>=-some_elim _ _ (enrolled, reg) e₄
                        λ reg' decoded_registration e₅.
                          >>=-some_elim _ _ (enrolled, reg) e₅
                            λ _ credential e₆.
                              >>=-some_elim _ _ (enrolled, reg) e₆
                                λ id signed e₇.
                                  >>=-some_elim _ _ (enrolled, reg) e₇
                                    λ enrolled' known e₈.
                                      let decoded_reg : services.decode_registration msg.payload
                                          ≡ some reg' =
                                        decoded_registration in
                                      let known' : services.store.get_agent_by_credential call
                                            (credential_hash services.sha256 reg'.credential) db
                                          ≡ ok (some enrolled') =
                                        found-some _ _ known in
                                      let signed' : verify_credential services.sha512 platform
                                            reg'.credential
                                          ≡ Platform.ok id =
                                        verified-some _ _ signed in
                                      let (same_agent, same_reg) =
                                        some-injective enrolled' enrolled reg' reg e₈ in
                                      record {
                                        read = f;
                                        msg = msg;
                                        agent_id = id;
                                        frame_read = frame_read;
                                        is_text = (==_iff f.opcode op_text).0 (guard-some _ _ text);
                                        decoded = decoded;
                                        is_register =
                                            (text_eq_iff msg.kind (codes "register")).0
                                              (guard-some _ _ register);
                                        decoded_registration = rw same_reg at decoded_reg;
                                        is_signed = rw same_reg at signed';
                                        is_enrolled = rw (same_reg, same_agent) at known';
                                      }

  -- A credential that verifies is not empty.
  signed_present :
      (platform : Platform) (c id : Bytes)
      → verify_credential services.sha512 platform c ≡ Platform.ok id
      → not (text_eq c []) ≡ true
  unfolding verify_credential text_eq
  signed_present platform [] id e = absurd (cc)
  signed_present platform (x ∷ c) id e = refl

  -- A registration passes the checks exactly when there is proof of it: a text frame of a "register"
  -- message whose credential the platform signed and the store knows.
  pub check_registration_iff :
      (platform : Platform) (db : S) (frame : Option Frame) (enrolled : AgentRecord)
      (reg : Registration)
      → (check_registration services call platform db frame ≡ some (enrolled, reg))
        ↔ Proof platform db frame enrolled reg
  check_registration_iff platform db frame enrolled reg =
      (check_registration_to platform db frame enrolled reg, from)
    where
      from :
          Proof platform db frame enrolled reg
          → check_registration services call platform db frame ≡ some (enrolled, reg)
      from p =
          unfold check_registration in
          rw
            (
              p.frame_read,
              p.is_text,
              p.decoded,
              p.is_register,
              text_eq_refl (codes "register"),
              p.decoded_registration,
              signed_present platform reg.credential _ p.is_signed,
              p.is_signed,
              p.is_enrolled,
            )
            refl

module _ {S : Type 0} (services : Services S) (call : Call) (conn : ℕ) (outcome : Hijack)
    (r : Request) where
  -- What became of an agent's connection: at most it was closed, or it is upgraded, its registration
  -- is proven, and it is registered as that agent.
  pub data Admission (frame : Option Frame) (s : Server S)
      (out : Option (Response (Unit {0})) × Server S) : Type 0 where
    refused :
        ((response : Bytes)
          → upgrade_websocket services.sha1 services.base64 outcome r ≢ upgraded response)
        → out ≡ (some (failed 400 (codes "WebSocket upgrade failed")), s)
        → Admission frame s out
    turned_away :
        (response : Bytes)
        → upgrade_websocket services.sha1 services.base64 outcome r ≡ upgraded response
        → check_registration services call s.platform s.store frame ≡ none
        → out ≡ (none, record s { closed = conn ∷ s.closed })
        → Admission frame s out
    joined :
        (response : Bytes) (enrolled : AgentRecord) (reg : Registration)
        → upgrade_websocket services.sha1 services.base64 outcome r ≡ upgraded response
        → Proof services call s.platform s.store frame enrolled reg
        → out ≡ (none, register_agent services call conn r.remote_addr enrolled reg s)
        → Admission frame s out

  pub handle_agent-Admission :
      (frame : Option Frame) (s : Server S)
      → Admission frame s (handle_agent services call conn outcome r frame s)
  unfolding handle_agent
  handle_agent-Admission frame s =
      from_upgrade (upgrade_websocket services.sha1 services.base64 outcome r) refl
    where
      from_check :
          (response : Bytes)
          → upgrade_websocket services.sha1 services.base64 outcome r ≡ upgraded response
          → (o : Option (AgentRecord × Registration))
          → check_registration services call s.platform s.store frame ≡ o
          → Admission frame s (elim o [
            | none ↦ (none, record s { closed = conn ∷ s.closed })
            | some (enrolled, reg) ↦
                (none, register_agent services call conn r.remote_addr enrolled reg s)
          ])
      from_check response e none failed_check = turned_away response e failed_check refl
      from_check response e (some (enrolled, reg)) checked =
          joined response enrolled reg e
            ((check_registration_iff services call s.platform s.store frame enrolled reg).0 checked)
            refl

      clash : {x : _} {response : Bytes} → err x ≢ upgraded response
      clash e = cc

      from_upgrade :
          (u : Upgrade)
          → upgrade_websocket services.sha1 services.base64 outcome r ≡ u
          → Admission frame s (elim u [
            | upgraded response ↦ elim (check_registration services call s.platform s.store frame) [
              | none ↦ (none, record s { closed = conn ∷ s.closed })
              | some (enrolled, reg) ↦
                  (none, register_agent services call conn r.remote_addr enrolled reg s)
            ]
            | other ↦ (some (failed 400 (codes "WebSocket upgrade failed")), s)
          ])
      from_upgrade (upgraded response) e = from_check response e _ refl
      from_upgrade (err x) e = refused (λ response u. clash (sym e ∙ u)) refl
