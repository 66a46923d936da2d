-- ===== src/Tmp.antt =====
-- backend/tmp_client.py: the packets of the TMP protocol, `TSLPPacket`, `TMPPacket` and
-- `BusinessPacket`, and the reading of a packet from the socket, `TMPClient._recv_tslp`. Bytes are
-- numbers below 256. A channel stands for the bytes of its name in UTF-8; the key exchange, the
-- encryption and the JSON of the payloads are not modelled.
pub mod Bytes
pub mod Packets
pub mod Socket
pub mod RoundTrip
pub mod Checksum
pub mod Stream
pub mod Ends
pub mod Client
pub mod Requests
