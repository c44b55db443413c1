-- ===== src/Hyperchat/Connection/Frames.antt =====
-- `connection_loop` of examples/hyperchat.rs: frames that are written in parts.
use hyperswarm_rs.Prelude.{ℕ, ◌≡◌, sym, ap, ◌∙◌, List, [], ◌∷◌, ◌++◌, append-nil, append_assoc}
use hyperswarm_rs.Hyperchat.{frame}
use hyperswarm_rs.Hyperchat.Framing.{frames}
use hyperswarm_rs.Hyperchat.Connection.{Event, turns, forwards, queues}

pub frames-snoc :
    (messages : List (List ℕ)) (message : List ℕ)
    → frames (messages ++ message ∷ []) ≡ frames messages ++ frame message
frames-snoc [] message = append-nil _
frames-snoc (m ∷ messages) message = rw (frames-snoc messages message, append_assoc)

pub snoc_writes :
    (before done : List ℕ) (taken : List (List ℕ)) (message : List ℕ)
    → done ++ [] ≡ before ++ frames taken
    → done ++ frame message ≡ before ++ frames (taken ++ message ∷ [])
snoc_writes before done taken message h =
    ap (λ bytes. bytes ++ frame message) (sym (append-nil done) ∙ h)
    ∙ append_assoc before (frames taken) (frame message)
    ∙ ap (λ bytes. before ++ bytes) (sym (frames-snoc taken message))

-- Bytes that are done and left, when some more of them are done.
pub moved :
    (done wrote left' : List ℕ) {done' left all : List ℕ}
    → done' ≡ done ++ wrote
    → left ≡ wrote ++ left'
    → done ++ left ≡ all
    → done' ++ left' ≡ all
moved done wrote left' e f h =
    ap (λ bytes. bytes ++ left') e
    ∙ append_assoc done wrote left'
    ∙ ap (λ bytes. done ++ bytes) (sym f)
    ∙ h

-- The messages that are put into the queue, in order.
abbrev pub queued_in : List Event → List (List ℕ)
queued_in [] = []
queued_in (turns ∷ events) = queued_in events
queued_in (forwards ∷ events) = queued_in events
queued_in (queues message ∷ events) = message ∷ queued_in events
