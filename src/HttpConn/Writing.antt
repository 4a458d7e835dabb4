-- ===== src/HttpConn/Writing.antt =====
-- `http_conn::process_write` and `http_conn::write`.
use cpp_url_shortener.Response.{HttpResponse, serialize}
use cpp_url_shortener.HttpConn.State.{
  HttpConn, write_buffer_size, Event, epollin, epollout, retain_pipelined_bytes,
}
use cpp_url_shortener.Common.{
  ℕ, ◌+◌, ◌-◌, Bool, true, false, Option, none, some, List, [], ◌∷◌, ◌++◌, leb, ◌==◌, if◌then◌else◌,
  length, take, drop, Bytes,
}

-- The copy into the buffer, which the vector then names. `bytes_have_send` stays.
unfoldable pub fill_buffer : Bytes → HttpConn → HttpConn
fill_buffer raw c = record c {
  write_buf = raw ++ drop (length raw) c.write_buf;
  iov_base = 0;
  iov_len = length raw;
  bytes_to_send = length raw;
}

-- None is the result false.
unfoldable pub process_write : HttpResponse → HttpConn → Option HttpConn
process_write resp c =
    let raw = serialize resp in
    if leb write_buffer_size (length raw) then none else some (fill_buffer raw c)

-- The results of one `writev`: a number of bytes taken, which is at most the number asked for, or
-- a negative result with its errno.
pub data Writev : Type 0 where
  wrote : ℕ → Writev
  interrupted would_block failed : Writev

-- The result of `write`, the slot, the bytes that the socket has taken, and the event armed.
pub record Written : Type 0 where
  pub result : Bool
  pub conn : HttpConn
  pub sent : Bytes
  pub armed : Option Event

unfoldable pub advance : ℕ → HttpConn → HttpConn
advance n c = record c {
  bytes_have_send = c.bytes_have_send + n;
  bytes_to_send = c.bytes_to_send - n;
  iov_base = c.bytes_have_send + n;
  iov_len = c.bytes_to_send - n;
}

-- What the next `writev` offers.
unfoldable pub unsent : HttpConn → Bytes
unsent c = take c.iov_len (drop c.iov_base c.write_buf)

unfoldable pub finish_write : Bytes → HttpConn → Written
finish_write sent c =
    if c.linger
    then record {
      result = true;
      conn = retain_pipelined_bytes c;
      sent = sent;
      armed = some epollin;
    }
    else record { result = false; conn = c; sent = sent; armed = some epollin }

-- The loop; where the list ends the call has not returned. `sent` is what was taken so far.
unfoldable pub write_loop : List Writev → Bytes → HttpConn → Option Written
write_loop [] sent c = none
write_loop (interrupted ∷ rs) sent c = write_loop rs sent c
write_loop (would_block ∷ rs) sent c =
    some (record { result = true; conn = c; sent = sent; armed = some epollout })
write_loop (failed ∷ rs) sent c =
    some (record { result = false; conn = c; sent = sent; armed = none })
write_loop (wrote n ∷ rs) sent c =
    let taken = sent ++ take n (unsent c) in
    let rest = write_loop rs taken (advance n c) in
    if leb (advance n c).bytes_to_send 0 then some (finish_write taken (advance n c)) else rest

unfoldable pub write : List Writev → HttpConn → Option Written
write rs c =
    if c.pending_close
    then some (record {
      result = false;
      conn = record c { pending_close = false };
      sent = [];
      armed = none;
    })
    else if c.bytes_to_send == 0
    then some
        (record { result = true; conn = retain_pipelined_bytes c; sent = []; armed = some epollin })
    else write_loop rs [] c
