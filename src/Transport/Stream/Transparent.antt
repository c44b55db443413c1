-- ===== src/Transport/Stream/Transparent.antt =====
-- src/transport: reading and writing on a connection beside reading and writing on its socket.
use hyperswarm_rs.Prelude.{ℕ, ◌≡◌, refl, List, [], ◌∷◌, IoResult, Poll}
use hyperswarm_rs.Transport.{Connection}
use hyperswarm_rs.Transport.Utp.{UtpStream, stream_new}
use hyperswarm_rs.Transport.Combined.{CombinedStream}
use hyperswarm_rs.Transport.Stream.{AsyncStream, connection_stream, utp_stream, combined_stream}

-- What a client does with a stream of bytes.
pub data Act : Type 0 where
  reads : ℕ → Act
  writes : List ℕ → Act
  flushes closes : Act

-- What comes of an act.
pub data Reply : Type 0 where
  got : Poll (IoResult (List ℕ)) → Reply
  put : Poll (IoResult ℕ) → Reply
  did : Poll (IoResult (Unit {0})) → Reply

module _ {T : Type 0} (io : AsyncStream T) where
  abbrev pub act : Act → T → Reply × T
  act (reads n) t = let (a, t') = io.poll_read n t in (got a, t')
  act (writes bytes) t = let (a, t') = io.poll_write bytes t in (put a, t')
  act flushes t = let (a, t') = io.poll_flush t in (did a, t')
  act closes t = let (a, t') = io.poll_close t in (did a, t')

  unfoldable pub perform : List Act → T → List Reply × T
  perform [] t = ([], t)
  perform (a ∷ acts) t =
      let (reply, t') = act a t in let (replies, t'') = perform acts t' in (reply ∷ replies, t'')

-- What is done to the socket is done to the connection that holds it.
abbrev pub over : {A T W : Type 0} → (T → W) → A × T → A × W
over wrap (a, t) = (a, wrap t)

module _ {T W : Type 0} (io : AsyncStream T) (outer : AsyncStream W) (wrap : T → W) where
  perform-over :
      ((a : Act) (t : T) → act outer a (wrap t) ≡ over wrap (act io a t))
      → (acts : List Act) (t : T) → perform outer acts (wrap t) ≡ over wrap (perform io acts t)
  unfolding perform
  perform-over step [] t = refl
  perform-over step (a ∷ acts) t = rw (step a t, perform-over step acts (act io a t).1)

module _ {T₁ T₂ : Type 0} (tcp_io : AsyncStream T₁) (utp_io : AsyncStream T₂)
    (c : Connection (CombinedStream T₁ (UtpStream T₂))) where
  abbrev pub all_io : AsyncStream (Connection (CombinedStream T₁ (UtpStream T₂)))
  all_io = connection_stream (combined_stream tcp_io (utp_stream utp_io))

  tcp_step :
      (a : Act) (t : T₁)
      → act all_io a (record c { inner = CombinedStream.tcp t })
        ≡ over (λ s. record c { inner = CombinedStream.tcp s }) (act tcp_io a t)
  unfolding connection_stream combined_stream
  tcp_step (reads n) t = refl
  tcp_step (writes bytes) t = refl
  tcp_step flushes t = refl
  tcp_step closes t = refl

  utp_step :
      (a : Act) (t : T₂)
      → act all_io a (record c { inner = CombinedStream.utp (stream_new t) })
        ≡ over (λ s. record c { inner = CombinedStream.utp (stream_new s) }) (act utp_io a t)
  unfolding connection_stream combined_stream utp_stream
  utp_step (reads n) t = refl
  utp_step (writes bytes) t = refl
  utp_step flushes t = refl
  utp_step closes t = refl

  -- Whatever is read, written, flushed or closed, and in whatever order, on a connection that holds
  -- a TCP stream or a uTP socket: the replies are those of the stream or the socket itself, which
  -- ends up in the connection, and the rest of the connection is unchanged.
  pub perform-transparent :
      (acts : List Act)
      → ((t : T₁)
          → perform all_io acts (record c { inner = CombinedStream.tcp t })
            ≡ over (λ s. record c { inner = CombinedStream.tcp s }) (perform tcp_io acts t))
        × ((t : T₂)
            → perform all_io acts (record c { inner = CombinedStream.utp (stream_new t) })
              ≡ over
                  (λ s. record c { inner = CombinedStream.utp (stream_new s) })
                  (perform utp_io acts t))
  perform-transparent acts = (
    perform-over tcp_io all_io (λ s. record c { inner = CombinedStream.tcp s }) tcp_step acts,
    perform-over utp_io all_io (λ s. record c { inner = CombinedStream.utp (stream_new s) })
        utp_step acts,
  )
