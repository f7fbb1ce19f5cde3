-- ===== src/Http/Tests.antt =====
-- A reply of the table.
use niubix.Http.Replies.{err_404}
use niubix.Http.Framing.{IsFramed, err_msg-IsFramed}

err_msg-IsFramed_example : IsFramed err_404
err_msg-IsFramed_example = err_msg-IsFramed err_404
