-- ===== src/Protocol/Spaces.antt =====
-- White space in the texts of src/protocol: `trim` and `replace(/\s+/g, " ")`, over the characters
-- that `trimStart` drops, which are those of `\s`.
pub mod Laws
pub mod Normal
use agentgather.Common.{ℕ, Bool, true, false, ◌&&◌, List, [], ◌∷◌, JsString, every, if◌then◌else◌}
use agentgather.Protocol.Mentions.{is_white_space, trim_start}

-- `trimEnd`.
unfoldable pub trim_end : JsString → JsString
trim_end [] = []
trim_end (c ∷ s) =
    let rest = trim_end s in if is_white_space c && every is_white_space s then [] else c ∷ rest

unfoldable pub trim : JsString → JsString
unfolding trim_end trim_start
trim s = trim_end (trim_start s)

-- Every run of white space becomes one space; `in_run` says that the character before was white.
unfoldable pub collapse : Bool → JsString → JsString
collapse in_run [] = []
collapse in_run (c ∷ s) =
    let rest = collapse (is_white_space c) s in
    if is_white_space c then (if in_run then rest else b' ' ∷ rest) else c ∷ rest
