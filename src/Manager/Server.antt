-- ===== src/Manager/Server.antt =====
-- The start of the listening socket, and what it does about each error.
use bittorrent_application_l.Base.{
  ℕ, ◌≡◌, ◌≢◌, refl, sym, subst, ◌∙◌, Bool, true, false, Option, none, some, ◌⊎◌, inl, inr,
}
use bittorrent_application_l.Peer.Socket.{
  Errno, eafnosupport, enodev, Family, inet, inet6, unspec, SysResult, returned, failed,
}

-- tcp_server_context, less its constants; a failed call's descriptor is `none`.
pub record ServerContext : Type 0 where
  pub socket : Option ℕ
  pub family : Family
  pub ipv4_support : Bool
  pub port : ℕ
  pub listening : Bool

-- Peer_Manager_SYS_Error is thrown with an error number.
pub data Result : Type 0 where
  ok : ServerContext → Result
  thrown : Errno → Result

infixl 5 ◌then◌
abbrev ◌then◌ : Result → (ServerContext → Result) → Result
ok s then f = f s
thrown e then f = thrown e

-- What the system answers to each call.
pub record Answers : Type 0 where
  pub socket6 : SysResult
  pub socket4 : SysResult
  pub setsockopt : SysResult
  pub bind : SysResult
  pub getsockname : SysResult
  pub listen : SysResult

unfoldable pub ipv6_default_server_sockstore : ServerContext → ServerContext
ipv6_default_server_sockstore s = record s { family = inet6; port = 0 }

unfoldable pub ipv4_default_server_sockstore : ServerContext → ServerContext
ipv4_default_server_sockstore s = record s { family = inet; port = 0 }

-- The error that is thrown is that of the first call to socket.
fallback : Errno → ServerContext → SysResult → Result
fallback error s (returned fd) = ok (record s { socket = some fd; ipv4_support = true })
fallback error s (failed e) = thrown error

unfoldable pub handle_socket_errno : Answers → Errno → ServerContext → Result
unfolding fallback ipv4_default_server_sockstore
handle_socket_errno a eafnosupport s =
    fallback eafnosupport (ipv4_default_server_sockstore s) a.socket4
handle_socket_errno a error s = thrown error

unfoldable pub handle_ip_errno : Errno → ServerContext → Result
handle_ip_errno enodev s = ok (record s { ipv4_support = false })
handle_ip_errno error s = thrown error

unfoldable pub handle_bind_errno : Errno → Result
handle_bind_errno error = thrown error

make_socket : Answers → ServerContext → SysResult → Result
make_socket a s (returned fd) = ok (record s { socket = some fd })
make_socket a s (failed e) = handle_socket_errno a e s

set_ipv6only : ServerContext → SysResult → Result
set_ipv6only s (returned n) = ok (record s { ipv4_support = true })
set_ipv6only s (failed e) = handle_ip_errno e s

-- Only an IPv6 socket has the option.
unfoldable pub ipv6only_off : Answers → ServerContext → Result
unfolding set_ipv6only
ipv6only_off a s = elim s.family [ inet6 ↦ set_ipv6only s a.setsockopt | _ ↦ ok s ]

-- The loop around bind has one round: its error handler always throws.
bound : ServerContext → SysResult → Result
bound s (returned n) = ok s
bound s (failed e) = handle_bind_errno e

-- getsockname fills in the port that the system chose.
named : ServerContext → SysResult → Result
named s (returned port) = ok (record s { port = port })
named s (failed e) = thrown e

listened : ServerContext → SysResult → Result
listened s (returned n) = ok (record s { listening = true })
listened s (failed e) = thrown e

unfoldable pub initialize_server_socket : Answers → ServerContext → Result
unfolding make_socket ipv6only_off bound named listened ipv6_default_server_sockstore
initialize_server_socket a s =
    make_socket a (ipv6_default_server_sockstore s) a.socket6
    then ipv6only_off a
    then (λ t. bound t a.bind)
    then (λ t. named t a.getsockname)
    then (λ t. listened t a.listen)

-- The socket of a started server: IPv6, or IPv4 where the system has no IPv6.
abbrev HasSocket : Answers → ServerContext → Type 0
HasSocket a s =
    (s.socket ≢ none)
    × (((s.family ≡ inet6) × (a.socket6 ≢ failed eafnosupport))
        ⊎ ((s.family ≡ inet) × (a.socket6 ≡ failed eafnosupport) × (s.ipv4_support ≡ true)))

pub record Listens (a : Answers) (s : ServerContext) : Type 0 where
  pub listening : s.listening ≡ true
  pub port : a.getsockname ≡ returned s.port
  pub socket : HasSocket a s

abbrev Good : (ServerContext → Type 0) → Result → Type 0
Good P (ok s) = P s
Good P (thrown e) = Unit {0}

Good-then :
    (P Q : ServerContext → Type 0) (r : Result) (f : ServerContext → Result)
    → Good P r
    → ((s : ServerContext) → P s → Good Q (f s))
    → Good Q (r then f)
Good-then P Q (ok s) f h k = k s h
Good-then P Q (thrown e) f h k = tt

different : inet6 ≢ inet
different e = cc

module _ (a : Answers) where
  fallback-Good :
      (s : ServerContext) (r : SysResult)
      → s.family ≡ inet
      → a.socket6 ≡ failed eafnosupport
      → Good (HasSocket a) (fallback eafnosupport s r)
  unfolding fallback
  fallback-Good s (returned fd) f e = ((λ q. cc), inr (f, e, refl))
  fallback-Good s (failed e') f e = tt

  handle_socket_errno-Good :
      (error : Errno) (s : ServerContext)
      → a.socket6 ≡ failed error
      → Good (HasSocket a) (handle_socket_errno a error s)
  unfolding handle_socket_errno ipv4_default_server_sockstore
  handle_socket_errno-Good eafnosupport s e =
      fallback-Good (ipv4_default_server_sockstore s) a.socket4 refl e
  handle_socket_errno-Good _ s e = tt

  make_socket-Good :
      (s : ServerContext) (r : SysResult)
      → s.family ≡ inet6
      → a.socket6 ≡ r
      → Good (HasSocket a) (make_socket a s r)
  unfolding make_socket
  make_socket-Good s (returned fd) f e = ((λ q. cc), inl (f, λ q. cc))
  make_socket-Good s (failed error) f e = handle_socket_errno-Good error s e

  set_ipv6only-Good :
      (s : ServerContext) (r : SysResult)
      → s.family ≡ inet6
      → HasSocket a s
      → Good (HasSocket a) (set_ipv6only s r)
  unfolding set_ipv6only handle_ip_errno
  set_ipv6only-Good s (returned k) f h =
      (h.0, elim h.1 [ inl six ↦ inl six | inr (four, e, supported) ↦ inr (four, e, refl) ])
  set_ipv6only-Good s (failed enodev) f h = (
    h.0,
    elim h.1 [ inl six ↦ inl six | inr (four, e, supported) ↦ absurd (different (sym f ∙ four)) ],
  )
  set_ipv6only-Good s (failed _) f h = tt

  ipv6only_off-Good :
      (s : ServerContext) (family : Family)
      → s.family ≡ family
      → HasSocket a s
      → Good (HasSocket a) (ipv6only_off a s)
  unfolding ipv6only_off
  ipv6only_off-Good s inet6 f h = rw (ipv6only_off, f) (set_ipv6only-Good s a.setsockopt f h)
  ipv6only_off-Good s inet f h = rw (ipv6only_off, f) h
  ipv6only_off-Good s unspec f h = rw (ipv6only_off, f) h

  bound-Good : (s : ServerContext) (r : SysResult) → HasSocket a s → Good (HasSocket a) (bound s r)
  unfolding bound handle_bind_errno
  bound-Good s (returned k) h = h
  bound-Good s (failed e) h = tt

  abbrev HasPort : ServerContext → Type 0
  HasPort s = HasSocket a s × (a.getsockname ≡ returned s.port)

  named-Good :
      (s : ServerContext) (r : SysResult)
      → a.getsockname ≡ r
      → HasSocket a s
      → Good HasPort (named s r)
  unfolding named
  named-Good s (returned port) e h = (h, e)
  named-Good s (failed error) e h = tt

  listened-Good : (s : ServerContext) (r : SysResult) → HasPort s → Good (Listens a) (listened s r)
  unfolding listened
  listened-Good s (returned k) h = record { listening = refl; port = h.1; socket = h.0 }
  listened-Good s (failed e) h = tt

  initialize-Good : (s : ServerContext) → Good (Listens a) (initialize_server_socket a s)
  unfolding initialize_server_socket ipv6_default_server_sockstore
  initialize-Good s =
      Good-then HasPort (Listens a) _ _
        (Good-then (HasSocket a) HasPort _ _
          (Good-then (HasSocket a) (HasSocket a) _ _
            (Good-then (HasSocket a) (HasSocket a) _ _
              (make_socket-Good (ipv6_default_server_sockstore s) a.socket6 refl refl)
              (λ t. ipv6only_off-Good t t.family refl))
            (λ t. bound-Good t a.bind))
          (λ t. named-Good t a.getsockname refl))
        (λ t. listened-Good t a.listen)

-- The start of the listening socket, if it throws no error, ends with a server that listens on the
-- port that the system reports, on an IPv6 socket, or, exactly when the system answers the request for
-- one with EAFNOSUPPORT, on an IPv4 socket with IPv4 support noted.
pub initialize_server_socket-Listens :
    (a : Answers) (fresh s : ServerContext) → initialize_server_socket a fresh ≡ ok s → Listens a s
initialize_server_socket-Listens a fresh s e = subst (Good (Listens a)) e (initialize-Good a fresh)
