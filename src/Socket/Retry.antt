-- ===== src/Socket/Retry.antt =====
-- send and receive of impl/stream_socket.ipp, where EAGAIN and EWOULDBLOCK differ.
use stream_client.ErrorCode.{ErrorCode}
