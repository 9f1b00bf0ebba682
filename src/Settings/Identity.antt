-- ===== src/Settings/Identity.antt =====
-- rust-client/src/settings.rs: the folder key of a server.
use obsidian_sync_engine.Base.{Text, to_bytes, ◌≡◌, sym, ap, ◌∙◌, All}
use obsidian_sync_engine.Paths.Encode.{IsChar, decode_bytes, encode_uri_component_lem}
use obsidian_sync_engine.Settings.{normalize_server_url, server_identity_for}

-- Two servers, of characters, with one identity have the same normalized URL, byte for byte.
pub server_identity_for_lem :
    (a b : Text)
    → All IsChar (normalize_server_url a)
    → All IsChar (normalize_server_url b)
    → server_identity_for a ≡ server_identity_for b
    → to_bytes (normalize_server_url a) ≡ to_bytes (normalize_server_url b)
unfolding server_identity_for
server_identity_for_lem a b h k same =
    sym (encode_uri_component_lem (normalize_server_url a) h).0
    ∙ ap decode_bytes same
    ∙ (encode_uri_component_lem (normalize_server_url b) k).0
