-- ===== src/Network/Authentication.antt =====
-- network/authentication.go: the security subsystem of zmq4, which is started once.
use bitmarkd_broadcast_monit.Common.{Bool, true, if◌then◌else◌}

-- `oneTimeAuthStart` is whether its function has run, and `auth_start` whether zmq4 starts. The
-- result is whether there is no error, and the new state.
unfoldable pub start_authentication : Bool → Bool → Bool × Bool
start_authentication auth_start started = if started then (true, true) else (auth_start, true)
