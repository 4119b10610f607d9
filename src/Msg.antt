-- ===== src/Msg.antt =====
-- Message ids: `nchan_msg_id_t` of nchan_types.h and the functions on it in util/nchan_msg.c.
pub mod Id
pub mod Compare
pub mod Update
pub mod Extract
pub mod Tag
mod Tests
