-- ===== src/Http/ClientIp.antt =====
-- `requestClientIP` of cmd/mail-admin/app/auth/service.go: the address that the login limiter counts.
use ucware_mail_server.Base.{Option, none, some, [], ◌∷◌}
use ucware_mail_server.Text.{Text, trim_space, cut}

-- `host, _, err := net.SplitHostPort(…)` with `err == nil && host != ""`.
host_or : Text → Option Text → Text
host_or addr none = addr
host_or addr (some []) = addr
host_or addr (some (c ∷ host)) = c ∷ host

real_or_remote : (Text → Option Text) → Text → Text → Text
unfolding host_or
real_or_remote split_host [] remote_addr = host_or remote_addr (split_host remote_addr)
real_or_remote split_host (c ∷ ip) remote_addr = c ∷ ip

first_or : (Text → Option Text) → Text → Text → Text → Text
unfolding real_or_remote
first_or split_host [] real_ip remote_addr = real_or_remote split_host real_ip remote_addr
first_or split_host (c ∷ ip) real_ip remote_addr = c ∷ ip

-- The first address of `X-Forwarded-For`, else `X-Real-IP`, else the peer; `split_host` is
-- `net.SplitHostPort`.
unfoldable pub request_client_ip : (Text → Option Text) → Text → Text → Text → Text
unfolding first_or trim_space cut
request_client_ip split_host forwarded_for real_ip remote_addr =
    first_or split_host (trim_space (cut b',' (trim_space forwarded_for)).0) (trim_space real_ip)
      (trim_space remote_addr)
