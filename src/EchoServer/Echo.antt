-- ===== src/EchoServer/Echo.antt =====
-- handleRequest of is_echo_sv.c: what a child sends back to its client.
use linux_programming.Base.{
  ◌≡◌, ap, ◌∙◌, sym, Bool, true, List, [], ◌∷◌, ◌++◌, append-nil, append_assoc, if◌then◌else◌,
}
use linux_programming.Base.Bytes.{Bytes}

-- What a read of the socket gives: bytes, with the result of the write that follows (whole or not), the
-- end of the input, or an error.
pub data Read : Type 0 where
  bytes : Bytes → Bool → Read
  end : Read
  error : Read

-- How the child ends, with what it has written: with success or with a failure. `waiting` is a child
-- whose client sends nothing more yet.
pub data Child : Type 0 where
  success : Bytes → Child
  failure : Bytes → Child
  waiting : Bytes → Child

-- `sent` is what has been written. A write that is not whole ends the child; how much of it was written
-- is not said.
unfoldable pub handle_request : Bytes → List Read → Child
handle_request sent [] = waiting sent
handle_request sent (end ∷ reads) = success sent
handle_request sent (error ∷ reads) = failure sent
handle_request sent (bytes b whole ∷ reads) =
    let next = handle_request (sent ++ b) reads in if whole then next else failure sent

-- What the client sends up to the end of its input.
abbrev pub concat : List Bytes → Bytes
concat [] = []
concat (b ∷ bs) = b ++ concat bs

abbrev pub chunks : List Bytes → List Read
chunks [] = end ∷ []
chunks (b ∷ bs) = bytes b true ∷ chunks bs

echo_from :
    (bs : List Bytes) (sent : Bytes) → handle_request sent (chunks bs) ≡ success (sent ++ concat bs)
unfolding handle_request
echo_from [] sent = ap success (sym (append-nil sent))
echo_from (b ∷ bs) sent = echo_from bs (sent ++ b) ∙ ap success (append_assoc sent b (concat bs))

-- Where the writes are whole, the client gets back what it has sent, however the input is cut into reads.
handle_request-chunks : (bs : List Bytes) → handle_request [] (chunks bs) ≡ success (concat bs)
handle_request-chunks bs = echo_from bs []
