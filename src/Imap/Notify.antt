-- ===== src/Imap/Notify.antt =====
-- The extension NOTIFY of internal/imapserver/notify.go, but for `NotifyNew`.
use yggmail.Base.{String, Bool, List, [], ◌∷◌, Option, none, some, str_eq, if◌then◌else◌}
use yggmail.Exec.{Result, ok, Done}

-- `Capabilities`, for a connection that is authenticated or not.
unfoldable pub capabilities : Bool → List String
capabilities authenticated = if authenticated then "NOTIFY" ∷ [] else []

-- `Handle` of `IMAPNotifyHandler` does nothing.
unfoldable pub handle_notify : Result Done
handle_notify = ok tt

-- `Command`, with the handler that it gives.
unfoldable pub command : String → Option (Result Done)
unfolding handle_notify
command name = if str_eq name "NOTIFY" then some handle_notify else none
