-- ===== src/Tests/Texts.antt =====
-- Thrown values, their classification and their description.
use cloudtalk_tech_task.Base.{ℕ, ◌≡◌, ◌↔◌}
use cloudtalk_tech_task.Kernel.Value.{error, plain, Value, obj, prop, end, int}
use cloudtalk_tech_task.Kernel.Retry.{terminal, classify_retry}
use cloudtalk_tech_task.Kernel.Laws.Classify.{IsTerminal, classify_retry-terminal_iff}

-- an HTTP client's error with this status
abbrev http_error : ℕ → Value
http_error status = obj error (prop "response" (obj plain (prop "status" (int status) end)) end)

classify_retry-terminal_iff_example :
    ((classify_retry (http_error 404)).decision ≡ terminal) ↔ IsTerminal (http_error 404)
classify_retry-terminal_iff_example = classify_retry-terminal_iff (http_error 404)
