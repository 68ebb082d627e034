-- ===== src/Server/Relay.antt =====
-- cmd/server: what a round of a loop writes, and to whom.
use rmm.Base.{
  ℕ, ◌≡◌, refl, ap, sym, ◌∙◌, ◌≢◌, ◌⊎◌, ==_iff, [], ◌∷◌, Bytes, codes, ◌==◌, text_eq, text_eq_iff,
  if◌then◌else◌, Bool, true, false, not, ◌||◌, Option, none, some, arith, inl, inr, if_rule,
  option_rule,
}
use rmm.Base.Map.{get, bytes_eq, nat_eq}
use rmm.Protocol.Frame.{Frame, op_text, op_binary, op_close, op_ping, op_pong}
use rmm.Protocol.Message.{Message}
use rmm.Store.{Call}
use rmm.Server.State.{Services, Server, LiveAgent}
use rmm.Server.Agent.{
  agent_message_round, agent_disconnect, update_live, to_viewer, handle_agent_text_message,
}
use rmm.Server.Viewer.{bare, viewer_input_round, viewer_disconnect, forward_input}

module _ {S : Type 0} (services : Services S) where
  -- A frame that is no close and no text frame of an "input" or "switch_display" message.
  abbrev pub IsIgnored : Frame → Type 0
  IsIgnored f =
      (f.opcode ≢ op_close)
      × ((m : Message)
          → f.opcode ≡ op_text
          → services.decode_message f.payload ≡ some m
          → (m.kind ≢ codes "input") × (m.kind ≢ codes "switch_display"))

  -- The frames of an agent that are for its viewer: a binary one, and a text that tells of a switched
  -- display.
  abbrev IsForViewer : Frame → Type 0
  IsForViewer f =
      (f.opcode ≡ op_binary)
      ⊎ ((f.opcode ≡ op_text)
          × ((m : Message) × (services.decode_message f.payload ≡ some m)
              × (m.kind ≡ codes "display_switched")))

module _ {S : Type 0} (services : Services S) (call : Call) where
  -- What a frame of an agent makes the server write: the answer to a ping; the very frame to the viewer
  -- of this agent, where it is for a viewer; or nothing, where it is neither or there is no viewer.
  pub data AgentTraffic (conn : ℕ) (id : Bytes) (f : Frame) (s s' : Server S) : Type 0 where
    silent :
        (IsForViewer services f → get id s.viewers ≡ none)
        → f.opcode ≢ op_ping
        → s'.sent ≡ s.sent
        → AgentTraffic conn id f s s'
    answered :
        f.opcode ≡ op_ping
        → s'.sent ≡ (conn, record { opcode = op_pong; payload = f.payload }) ∷ s.sent
        → AgentTraffic conn id f s s'
    relayed :
        (viewer : ℕ)
        → IsForViewer services f
        → get id s.viewers ≡ some viewer
        → s'.sent ≡ (viewer, f) ∷ s.sent
        → AgentTraffic conn id f s s'

  update_live-same :
      (s : Server S) (conn : ℕ) (f : LiveAgent → LiveAgent)
      → let s' = update_live services call conn f s in (s'.sent ≡ s.sent) × (s'.viewers ≡ s.viewers)
  update_live-same s conn f =
      option_rule (λ (s' : Server S). (s'.sent ≡ s.sent) × (s'.viewers ≡ s.viewers))
        (get conn s.live) _ _ (refl, refl) (λ a. (refl, refl))

  module _ (conn : ℕ) (id : Bytes) (f : Frame) (s s₁ : Server S) (same_sent : s₁.sent ≡ s.sent)
      (same_viewers : s₁.viewers ≡ s.viewers) where
    quiet :
        ¬ IsForViewer services f
        → f.opcode ≢ op_ping
        → (s' : Server S) → s'.sent ≡ s₁.sent
        → AgentTraffic conn id f s s'
    quiet other no_ping s' e = silent (λ b. absurd (other b)) no_ping (e ∙ same_sent)

    to_viewer-AgentTraffic :
        (opcode : ℕ)
        → f.opcode ≡ opcode
        → (opcode ≡ op_binary) ⊎ (opcode ≡ op_text)
        → IsForViewer services f
        → AgentTraffic conn id f s (to_viewer services call id opcode f.payload s₁)
    unfolding to_viewer
    to_viewer-AgentTraffic opcode is_opcode kind for_viewer = from (get id s₁.viewers) refl
      where
        from :
            (o : Option ℕ)
            → get id s₁.viewers ≡ o
            → AgentTraffic conn id f s (elim o [
              | none ↦ s₁
              | some viewer ↦ record s₁ {
                sent = (viewer, record { opcode = opcode; payload = f.payload }) ∷ s₁.sent;
              }
            ])
        from none e =
            silent (λ _. ap (get id) (sym same_viewers) ∙ e)
              (λ p. ground (arith, is_opcode, kind, p)) same_sent
        from (some viewer) e =
            relayed viewer for_viewer (ap (get id) (sym same_viewers) ∙ e)
              (rw (same_sent, sym is_opcode) refl)

    text-AgentTraffic :
        f.opcode ≡ op_text
        → AgentTraffic conn id f s (handle_agent_text_message services call conn id f.payload s₁)
    unfolding handle_agent_text_message
    text-AgentTraffic text = from (services.decode_message f.payload) refl
      where
        no_ping : f.opcode ≢ op_ping
        no_ping p = ground arith

        is_text :
            (m : Message)
            → services.decode_message f.payload ≡ some m
            → IsForViewer services f
            → m.kind ≡ codes "display_switched"
        is_text m e (inl b) = absurd (ground arith)
        is_text m e (inr (_, (m', e', kind))) = cc

        no_text : services.decode_message f.payload ≡ none → ¬ IsForViewer services f
        no_text e (inl b) = ground arith
        no_text e (inr (_, (m', e', kind))) = cc

        from :
            (o : Option Message)
            → services.decode_message f.payload ≡ o
            → AgentTraffic conn id f s (elim o [
              | none ↦ s₁
              | some m ↦
                  if text_eq m.kind (codes "display_switched")
                  then to_viewer services call id op_text f.payload s₁
                  else if text_eq m.kind (codes "heartbeat")
                  then update_live services call conn (λ a. record a { status = codes "online" }) s₁
                  else s₁
            ])
        from none e = quiet (no_text e) no_ping s₁ refl
        from (some m) e =
            let switched = text_eq_iff m.kind (codes "display_switched") in
            if_rule (AgentTraffic conn id f s) (text_eq m.kind (codes "display_switched")) _ _
              (λ kind.
                to_viewer-AgentTraffic op_text text (inr refl)
                  (inr (text, (m, e, switched.0 kind))))
              λ other.
                let drop = quiet (λ shown. ground (arith, switched, is_text m e shown)) no_ping in
                if_rule (AgentTraffic conn id f s) (text_eq m.kind (codes "heartbeat")) _ _
                  (λ _. drop _ (update_live-same s₁ conn _).0) λ _. drop s₁ refl

  -- A binary frame of an agent, and a text frame that tells of a switched display, is written unchanged
  -- to the viewer of that very agent, and dropped only when there is none; a ping is answered; and no
  -- other frame makes the server write anything.
  pub agent_round-AgentTraffic :
      (conn : ℕ) (id : Bytes) (f : Frame) (s : Server S)
      → AgentTraffic conn id f s (agent_message_round services call conn id (some f) s)
  unfolding agent_message_round agent_disconnect
  agent_round-AgentTraffic conn id f s =
      let s₁ = update_live services call conn (λ a. record a { last_seen = call.now }) s in
      let (same_sent, same_viewers) =
        update_live-same s conn (λ a. record a { last_seen = call.now }) in
      let P = AgentTraffic conn id f s in
      let drop = quiet conn id f s s₁ same_sent same_viewers in
      if_rule P (f.opcode == op_close) _ _
        (λ c. drop (λ v. ground (arith, v)) (ground arith) _ refl)
        λ _.
          if_rule P (f.opcode == op_ping) _ _
            (λ p. answered ((==_iff f.opcode op_ping).0 p) (ap (λ l. (conn, _) ∷ l) same_sent))
            λ no_ping.
              if_rule P (f.opcode == op_binary) _ _
                (λ b.
                  to_viewer-AgentTraffic conn id f s s₁ same_sent same_viewers op_binary
                    ((==_iff f.opcode op_binary).0 b) (inl refl)
                    (inl ((==_iff f.opcode op_binary).0 b)))
                λ other.
                  if_rule P (f.opcode == op_text) _ _
                    (λ t.
                      text-AgentTraffic conn id f s s₁ same_sent same_viewers
                        ((==_iff f.opcode op_text).0 t))
                    λ no_text.
                      drop (λ v. ground (arith, v)) (λ p. ground (arith, no_ping, p)) s₁ refl

  -- What a round of a viewer makes the server write: nothing, the very frame to the agent of the
  -- viewer, if it is a text frame of an "input" or "switch_display" message, or the order to stop when
  -- the loop ends.
  pub data ViewerTraffic (agent : ℕ) (frame : Option Frame) (s s' : Server S) : Type 0 where
    silent :
        (f : Frame)
        → frame ≡ some f
        → IsIgnored services f
        → s'.sent ≡ s.sent
        → s'.viewer_loops ≡ s.viewer_loops
        → ViewerTraffic agent frame s s'
    forwarded :
        (f : Frame) (m : Message)
        → frame ≡ some f
        → f.opcode ≡ op_text
        → services.decode_message f.payload ≡ some m
        → (m.kind ≡ codes "input") ⊎ (m.kind ≡ codes "switch_display")
        → s'.sent ≡ (agent, f) ∷ s.sent
        → ViewerTraffic agent frame s s'
    stopped :
        ((f : Frame) → frame ≡ some f → f.opcode ≡ op_close)
        → s'.sent
          ≡ (agent, record { opcode = op_text; payload = bare services (codes "stop_capture") })
            ∷ s.sent
        → ViewerTraffic agent frame s s'

  or_cases : (a b : Bool) → a || b ≡ true → (a ≡ true) ⊎ (b ≡ true)
  or_cases true b e = inl refl
  or_cases false b e = inr e

  kinds :
      (m : Message)
      → text_eq m.kind (codes "input") || text_eq m.kind (codes "switch_display") ≡ true
      → (m.kind ≡ codes "input") ⊎ (m.kind ≡ codes "switch_display")
  kinds m allowed = elim (or_cases _ _ allowed) [
    | inl i ↦ inl ((text_eq_iff m.kind (codes "input")).0 i)
    | inr d ↦ inr ((text_eq_iff m.kind (codes "switch_display")).0 d)
  ]

  kinds_not :
      (m : Message)
      → text_eq m.kind (codes "input") || text_eq m.kind (codes "switch_display") ≡ false
      → (m.kind ≢ codes "input") × (m.kind ≢ codes "switch_display")
  kinds_not m other = (
    λ i. ground (arith, other, (text_eq_iff m.kind (codes "input")).1 i),
    λ d. ground (arith, other, (text_eq_iff m.kind (codes "switch_display")).1 d),
  )

  -- A viewer's frame reaches the agent of that viewer unchanged when it is a text frame of input or of a
  -- switch of displays, and no other frame of a viewer reaches anybody.
  pub viewer_round-ViewerTraffic :
      (conn : ℕ) (id : Bytes) (agent : ℕ) (frame : Option Frame) (s : Server S)
      → ViewerTraffic agent frame s (viewer_input_round services call conn id agent frame s)
  unfolding viewer_input_round viewer_disconnect forward_input
  viewer_round-ViewerTraffic conn id agent none s = stopped (λ f e. absurd (cc)) refl
  viewer_round-ViewerTraffic conn id agent (some f) s =
      let P = ViewerTraffic agent (some f) s in
      if_rule P (f.opcode == op_close) _ _
        (λ c.
          stopped
            (λ g e. ap (λ (o : Option Frame). opcode_of o) (sym e) ∙ (==_iff f.opcode op_close).0 c)
            refl)
        λ live.
          if_rule P (not (f.opcode == op_text)) _ _
            (λ other.
              silent f refl (λ c. ground (arith, live, c), λ m text. absurd (ground arith)) refl
                refl)
            λ text.
              forward (λ c. ground (arith, live, c)) (ground arith)
                (services.decode_message f.payload) refl
    where
      opcode_of : Option Frame → ℕ
      opcode_of none = 0
      opcode_of (some g) = g.opcode

      kind_of : Option Message → Bytes
      kind_of none = []
      kind_of (some m) = m.kind

      clash : {m : Message} → none ≢ some m
      clash h = cc

      forward :
          f.opcode ≢ op_close
          → f.opcode ≡ op_text
          → (o : Option Message) → services.decode_message f.payload ≡ o
          → ViewerTraffic agent (some f) s (elim o [
            | none ↦ s
            | some m ↦
                if text_eq m.kind (codes "input") || text_eq m.kind (codes "switch_display")
                then record s {
                  sent = (agent, record { opcode = op_text; payload = f.payload }) ∷ s.sent;
                }
                else s
          ])
      forward live text none e = silent f refl (live, λ m _ d. absurd (clash (sym e ∙ d))) refl refl
      forward live text (some m) e =
          if_rule (ViewerTraffic agent (some f) s)
            (text_eq m.kind (codes "input") || text_eq m.kind (codes "switch_display")) _ _
            (λ allowed. forwarded f m refl text e (kinds m allowed) (rw (sym text) refl))
            (λ other.
              silent f refl
                (
                  live,
                  λ m' _ d. kinds_not m' (
                      ap (λ k. text_eq k (codes "input") || text_eq k (codes "switch_display"))
                        (ap kind_of (sym d ∙ e))
                      ∙ other),
                )
                refl refl)
