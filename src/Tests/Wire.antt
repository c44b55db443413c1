-- ===== src/Tests/Wire.antt =====
-- A stand-in for the stream of a chat, which holds the bytes that come in, those read and those sent.
use hyperswarm_rs.Prelude.{
  ℕ, zero, suc, ◌+◌, ◌≡◌, refl, sym, List, [], ◌∷◌, ◌++◌, append-nil, IoResult, ok, Poll, pending,
  ready, arith, length, length-append,
}
use hyperswarm_rs.Hyperchat.Connection.{AsyncStream}
use hyperswarm_rs.Hyperchat.Connection.Laws.{Views, Reads, IsStream}

-- A stream that gives one byte in a poll, and takes all at once; a future of a read is what is missing and what
-- is there.
abbrev pub Wire : Type 0
Wire = List ℕ × List ℕ × List ℕ

abbrev pub poll_byte : ℕ → List ℕ → Wire → Poll (IoResult (List ℕ)) × (ℕ × List ℕ) × Wire
poll_byte zero so_far wire = (ready (ok so_far), (0, so_far), wire)
poll_byte (suc n) so_far ([], read, sent) = (pending, (suc n, so_far), ([], read, sent))
poll_byte (suc zero) so_far (b ∷ unread, read, sent) =
    (ready (ok (so_far ++ b ∷ [])), (0, so_far ++ b ∷ []), (unread, read ++ b ∷ [], sent))
poll_byte (suc (suc n)) so_far (b ∷ unread, read, sent) =
    (pending, (suc n, so_far ++ b ∷ []), (unread, read ++ b ∷ [], sent))

abbrev pub wire : AsyncStream Wire (ℕ × List ℕ) (List ℕ)
wire = record {
  read_exact = λ n. (n, []);
  poll_read = λ (n, so_far) s. poll_byte n so_far s;
  write_all = λ bytes. bytes;
  poll_write = λ bytes (unread, read, sent). (ready (ok tt), [], (unread, read, sent ++ bytes));
}

abbrev pub wire_views : Views Wire (ℕ × List ℕ) (List ℕ)
wire_views = record {
  read = λ (unread, read, sent). read;
  sent = λ (unread, read, sent). sent;
  so_far = λ (n, so_far). so_far;
  wants = λ (n, so_far). length so_far + n;
  left = λ bytes. bytes;
}

pub poll_byte-Reads :
    (n : ℕ) (so_far : List ℕ) (s : Wire)
    → let (polled, r', s') = poll_byte n so_far s in
      (bytes : List ℕ) × (wire_views.read s' ≡ wire_views.read s ++ bytes)
      × (wire_views.sent s' ≡ wire_views.sent s)
      × Reads wire_views (n, so_far) bytes polled r'
poll_byte-Reads zero so_far s =
    ([], sym (append-nil _), refl, (sym (append-nil so_far), omega arith))
poll_byte-Reads (suc n) so_far ([], read, sent) =
    ([], sym (append-nil read), refl, (sym (append-nil so_far), refl, omega arith))
poll_byte-Reads (suc zero) so_far (b ∷ unread, read, sent) =
    (b ∷ [], refl, refl, (refl, omega (arith, length-append so_far (b ∷ []))))
poll_byte-Reads (suc (suc n)) so_far (b ∷ unread, read, sent) = (
  b ∷ [],
  refl,
  refl,
  (
    refl,
    omega (arith, length-append so_far (b ∷ [])),
    omega (arith, length-append so_far (b ∷ [])),
  ),
)

abbrev pub wire-IsStream : IsStream wire
wire-IsStream = record {
  views = wire_views;
  reads_from_nothing = λ n. refl;
  wants_all = λ n. omega arith;
  writes_all = λ bytes. refl;
  polls_read = λ (n, so_far) s. poll_byte-Reads n so_far s;
  polls_write = λ bytes s. (bytes, refl, refl, refl);
}
