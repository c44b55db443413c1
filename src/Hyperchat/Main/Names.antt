-- ===== src/Hyperchat/Main/Names.antt =====
-- examples/hyperchat.rs: the names under which messages are printed.
use hyperswarm_rs.Prelude.{ℕ, ◌≡◌, refl, ap, Option, none, some, List, [], ◌∷◌, map, String}
use hyperswarm_rs.Hyperchat.Broadcast.{IncomingMessage}
use hyperswarm_rs.Hyperchat.Main.{known_as, says, text_of, print}

module _ (from_utf8 : List ℕ → Option String) where
  print-some :
      (name : String) (messages : List IncomingMessage)
      → print from_utf8 (some name) messages
        ≡ map (λ message. says message.from name (text_of from_utf8 message)) messages
  unfolding print
  print-some name [] = refl
  print-some name (message ∷ messages) =
      ap (λ lines. says message.from name (text_of from_utf8 message) ∷ lines)
        (print-some name messages)

  -- Of any messages that come in, whoever they are from, the first is printed as the name of its
  -- sender, and each other one as a message under that name.
  pub print-names :
      (first : IncomingMessage) (messages : List IncomingMessage)
      → print from_utf8 none (first ∷ messages)
        ≡ known_as first.from (text_of from_utf8 first)
          ∷ map
              (λ message. says message.from (text_of from_utf8 first) (text_of from_utf8 message))
              messages
  unfolding print
  print-names first messages =
      ap (λ lines. known_as first.from (text_of from_utf8 first) ∷ lines)
        (print-some (text_of from_utf8 first) messages)
