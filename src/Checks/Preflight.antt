-- ===== src/Checks/Preflight.antt =====
-- The hold on Preflight rows (backend/lftpweb/core/preflight.py) at concrete inputs. A row is a text.
use lftpweb.Common.{String, ◌≡◌, refl, some, List, [], ◌∷◌}
use lftpweb.Common.Dict.{lookup, last_given}
use lftpweb.Common.TextList.{elem_text}
use lftpweb.Preflight.Held.{Refresh, cache_after, held, cache_after-held}

-- A row that is missing for a second, the newest refresh first.
abbrev log : List (Refresh String)
log =
    record { seen = []; at = 11_000_000; retired = [] }
    ∷ record { seen = ("id", "row") ∷ []; at = 10_000_000; retired = [] }
    ∷ []

cache_after-held_example : lookup "id" (cache_after log) ≡ held "id" log
cache_after-held_example = cache_after-held log "id"

row_is_held : held "id" log ≡ some (record { row = "row"; last_seen = 10_000_000 })
unfolding held last_given elem_text
row_is_held = refl
