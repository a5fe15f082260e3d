-- ===== src/Search/Limits.antt =====
-- src/memstem/servers/request_limits.py: the bounds on what a request asks for, and the searches of the servers
-- under them (src/memstem/servers/http_server.py, src/memstem/servers/mcp_server.py).
use mathlib.Core.Option
use memstem.Prelude.{ℕ, Option, none, some, min, max}
use memstem.Search.Retrieve.{Request}

-- an integer: `negsuc n` is -1 - n
pub data ℤ : Type 0 where
  pos : ℕ → ℤ
  negsuc : ℕ → ℤ

abbrev pub max_search_limit : ℕ
max_search_limit = 100

abbrev pub max_rerank_top_n : ℕ
max_rerank_top_n = 50

-- max(1, min(value, bound))
abbrev pub clamp : ℕ → ℤ → ℕ
clamp bound (pos n) = max 1 (min n bound)
clamp bound (negsuc n) = 1

unfoldable pub clamp_limit : ℤ → ℕ
clamp_limit value = clamp max_search_limit value

unfoldable pub clamp_rerank_top_n : ℤ → ℕ
clamp_rerank_top_n value = clamp max_rerank_top_n value

-- the request that a handler makes of the caller's numbers; the MCP server passes its own `rerank_top_n` on
abbrev pub limited : {S : Type 0} → ℤ → Option ℤ → Request S → Request S
limited limit none request = record request { limit = clamp_limit limit }
limited limit (some n) request = record request {
  limit = clamp_limit limit;
  rerank_top_n = some (clamp_rerank_top_n n);
}

-- the `rerank_top_n` of a request whose caller names none; a server takes it from its configuration.
abbrev configured : {S : Type 0} → Option ℤ → Request S → ℕ
configured none request = Option.get_or request.rerank_top_n 0
configured (some n) request = 0
