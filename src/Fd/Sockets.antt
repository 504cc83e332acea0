-- ===== src/Fd/Sockets.antt =====
-- `create_binded_socket`: when it succeeds, and what it leaves open when it fails.
use smtp_course_work.Base.{
  ℕ, ◌<◌, ◌≤◌, ◌≡◌, true, false, none, some, [], ◌∷◌, arith, Bytes, length, ◌⊎◌,
}
use smtp_course_work.Fd.{BindReplies, create_binded_socket, sun_path_size}

-- Once `socket` has returned a descriptor, `create_binded_socket` returns it if the name is shorter than
-- `sun_path` and the later calls succeed, and -1 otherwise; in both cases the descriptor stays open.
pub create_binded_socket_lem :
    (k : BindReplies) (name : Bytes) (sock : ℕ)
    → k.socket ≡ some sock
    → ((create_binded_socket k name).1 ≡ sock ∷ [])
      × (length name < sun_path_size
          → k.unlink ≡ true
          → k.bind ≡ true
          → k.listen ≡ true
          → (create_binded_socket k name).0 ≡ some sock)
      × ((sun_path_size ≤ length name) ⊎ (k.unlink ≡ false) ⊎ (k.bind ≡ false) ⊎ (k.listen ≡ false)
          → (create_binded_socket k name).0 ≡ none)
unfolding create_binded_socket
create_binded_socket_lem k name sock h =
    (ground arith, (λ a b c d. ground arith), λ bad. ground arith)
