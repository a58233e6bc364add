-- ===== src/Counter/Conn.antt =====
-- common/counter/conn.go. What the wrapped connection does is given by its results: the number of
-- bytes of a call, and whether it failed. `a` is the *TrafficStorage that the connection holds.
pub mod Counting
use bxtest.Prelude.{ℤ, pos, ltb_ℤ, Bool, if◌then◌else◌, Addr, Option, none, some}
use bxtest.Counter.Traffic.{TrafficStorage, TrafficCounter, storage, put, add_up, add_down}

-- func (c *ConnCounter) Read(b): UpCounter.Store(int64(n)), whatever the error
unfoldable pub conn_read : Addr → ℤ → TrafficCounter → TrafficCounter
conn_read a n c = put a (record (storage c a) { up_counter = n }) c

-- func (c *ConnCounter) Write(b)
unfoldable pub conn_write : Addr → ℤ → TrafficCounter → TrafficCounter
conn_write a n c = put a (record (storage c a) { down_counter = n }) c

-- func (c *ConnCounter) ReadBuffer(buffer); `failed` is err != nil, `n` is buffer.Len() after it
unfoldable pub conn_read_buffer : Addr → Bool → ℤ → TrafficCounter → TrafficCounter
conn_read_buffer a failed n c = if failed then c else if ltb_ℤ (pos 0) n then add_up a n c else c

-- func (c *ConnCounter) WriteBuffer(buffer); `n` is buffer.Len() before it
unfoldable pub conn_write_buffer : Addr → Bool → ℤ → TrafficCounter → TrafficCounter
conn_write_buffer a failed n c = if failed then c else if ltb_ℤ (pos 0) n then add_down a n c else c

-- the readFunc and the writeFunc of NewConnCounter and of NewPacketConnCounter
unfoldable pub read_func : Addr → ℤ → TrafficCounter → TrafficCounter
read_func = add_up

unfoldable pub write_func : Addr → ℤ → TrafficCounter → TrafficCounter
write_func = add_down

-- func (p *PacketConnCounter) ReadPacket(buff)
unfoldable pub read_packet : Addr → Bool → ℤ → TrafficCounter → TrafficCounter
read_packet a failed n c = if failed then c else add_up a n c

-- func (p *PacketConnCounter) WritePacket(buff, destination)
unfoldable pub write_packet : Addr → Bool → ℤ → TrafficCounter → TrafficCounter
write_packet a failed n c = if failed then c else if ltb_ℤ (pos 0) n then add_down a n c else c

-- one call on a connection
pub data Call : Type 0 where
  reads writes : ℤ → Call
  reads_buffer writes_buffer : Bool → ℤ → Call
  reads_packet writes_packet : Bool → ℤ → Call
  counts_read counts_write : ℤ → Call

unfoldable pub call : Addr → Call → TrafficCounter → TrafficCounter
unfolding conn_read conn_write conn_read_buffer conn_write_buffer read_packet write_packet read_func
    write_func
call a (reads n) = conn_read a n
call a (writes n) = conn_write a n
call a (reads_buffer failed n) = conn_read_buffer a failed n
call a (writes_buffer failed n) = conn_write_buffer a failed n
call a (reads_packet failed n) = read_packet a failed n
call a (writes_packet failed n) = write_packet a failed n
call a (counts_read n) = read_func a n
call a (counts_write n) = write_func a n
