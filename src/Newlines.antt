-- ===== src/Newlines.antt =====
-- Line starts of a text, as crates/ruac/src/stacktrace.rs and crates/rua-ide/src/syntax/line_index.rs
-- collect them, and the searches of Rust's slices that read them.
pub mod Count
use rua_lang.Base.{ℕ, suc, ◌+◌, Bool, List, [], ◌∷◌, ◌==◌, if◌then◌else◌}

-- the offsets behind the line breaks of bytes that begin at `offset`
unfoldable pub starts_after : ℕ → List ℕ → List ℕ
starts_after offset [] = []
starts_after offset (byte ∷ bytes) =
    let rest = starts_after (offset + 1) bytes in
    if byte == b'\n' then (offset + 1) ∷ rest else rest

-- `partition_point`: the length of the front that passes, on a slice whose passing items come first
unfoldable pub partition_point : (ℕ → Bool) → List ℕ → ℕ
partition_point p [] = 0
partition_point p (x ∷ xs) = if p x then suc (partition_point p xs) else 0

-- the number of line breaks
unfoldable pub newlines : List ℕ → ℕ
newlines [] = 0
newlines (byte ∷ bytes) = (if byte == b'\n' then 1 else 0) + newlines bytes
