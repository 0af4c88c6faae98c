-- ===== src/Lib.antt =====
-- vrtc-sdk: moving audio and video packets between cameras, storage and viewers.
--
-- The program and its parts. Depacketizers turn RTP payloads into access units of NAL units; the
-- framing code converts those between Annex B and AVCC; packets with a codec type and timestamps then
-- flow through demuxers and muxers. A chaining demuxer plays a sequence of recorded segments as one
-- stream, a packet buffer serves the recent past of a live stream to followers, and a ring buffer does
-- the same for fMP4 fragments. A relay reads one demuxer and offers each packet to its consumers, which
-- drive muxers; mergers attach analytics to packets by wall-clock time.
--
-- Files and what they model.
--   Prelude    list functions, Boolean tests, int64 and bit lemmas that the components share.
--   Pio        av/utils/bits/pio/reader.go and writer.go: U8, U16BE, ..., PutI64BE, one function each.
--              Pio.Vec is vec.go: VecSlice, with the loops of VecSliceTo.
--   Bits       av/utils/bits: Bits.Golomb is golomb_reader.go, Bits.Words the Reader and Writer of bits.go.
--   H264Parser.Sps  av/codec/h264parser/sps.go: ParseSPS. skip_aspect to skip_chroma are the parts of
--              parseVUI before the timing, parse_sizes the end of ParseSPS. H264Parser.Record is
--              codec_data.go: AVCDecoderConfRecord and the constructors of CodecData, and
--              H264Parser.Nalu is nalu.go.
--   H265Parser.Sps  av/codec/h265parser/sps.go: ParseSPS, and H265Parser.Vui its parseVUI.
--   AacParser  av/codec/aacparser/parser.go: AacParser.Config is MPEG4AudioConfig with its reader and
--              writer, AacParser.Adts ParseADTSHeader, FillADTSHeader and ExtractADTSFrame.
--   Pcm        av/codec/pcm: Pcm.Ulaw is pcmu.go, Pcm.Alaw pcma.go, Pcm.Flac the codec data of flac.go.
--   Nalu       av/codec/parser/parser.go (IsAnnexBOrAVCC, SplitNALUs, FindNextAnnexBNALUnit, AnnexBToAVCC,
--              AVCCToAnnexB) and convert.go of av/codec/h264parser and av/codec/h265parser, where
--              nalus_to_avcc is AnnexBToAVCC and avcc_to_nalus is AVCCToAnnexB.
--   Av         av/av.go and av/packet.go: codec types, streams, packets. Av.AudioFrame is av/audioframe.go,
--              Av.NaluType is av/nalutype.go, Av.CodecType the codec types of av/av.go and their names.
--   Chain      av/chain/chain.go: ChainingDemuxer. read_loop is the loop of ReadPacket, emit its part that
--              hands a packet out, note_codecs its comparison of codecs.
--   PacketBuf  av/packetbuf/buffer.go: Buffer and bufDemuxer. read_round is one round of the loop of
--              ReadPacket, on one snapshot of the buffer.
--   Segment.RingBuffer  av/segment/ringbuf.go: RingBuffer.
--   Segment.Muxer  av/segment/muxer.go: SegmentMuxer, over Fmp4.Muxer and Segment.RingBuffer. settle is
--              WritePacket after the inner muxer took the packet, finish the rest of Close.
--   Fmp4       av/format/fmp4/muxer.go: Fmp4.Track has samples and tracks, Fmp4.Muxer the Muxer. flush_at_key
--              and flush_after are the flushes of WritePacket before and after the sample is kept.
--              Fmp4.Box has makeBox, makeFullBox and writeZeros with findBox and findBoxes, Fmp4.Init the
--              boxes of the init segment, Fmp4.Fragment those of a fragment, Fmp4.Sidx BuildSidx and
--              ParseSidx. Of av/format/fmp4/demuxer.go, Fmp4.Moof reads a moof, Fmp4.Mdat makes packets of
--              its samples, Fmp4.Emsg, Fmp4.Esds, Fmp4.Stsd and Fmp4.Moov read the boxes they are named
--              for, Fmp4.Demuxer is the Demuxer with GetCodecs and ReadPacket, and Fmp4.Demuxer.Seek is
--              SeekToKeyframe. on_moof and on_box are cases of ReadPacket.
--   Rtp.H265   av/codec/h265parser/rtp.go: Parser, with predicates of nalu.go.
--   Rtp.H264   av/format/rtsp/h264_rtp_decoder.go: h264RTPDecoder. decode_fua and decode_stapa are
--              branches of the switch of decodeNALUs, collect is the rest of Decode.
--   Rtp.Rtcp   av/format/rtsp/rtcp.go: parseSenderReports.
--   Relay.Consumer  av/relayhub/consumer.go and errors.go: Consumer, its queue, and what it skips.
--              offer_leaky and offer_blocking are one turn of the delivery loops of readWriteLoop.
--   Relay.Muxing  the goroutine of a consumer: run, packetLoop, handlePacket, rotateMuxer.
--   Relay.Registry  av/relayhub/relay.go: Relay. AddConsumer is check_add, attach and enlist, its parts
--              between which other calls can come; store_packet and deliver are the two halves of a
--              round of readWriteLoop. Close is close_relay and close_buffer; what the goroutine of
--              Start defers is clear_consumers. World has the steps of a relay and of its calls.
--   Pva.Store  av/pva/store.go: AnalyticsStore, AnalyticsHub, the pipeline. put_entries is what Put does
--              to the entries of a source, lookup_entry what lookup finds there.
--   Pva.Merge  av/pva/merger.go and blocking_merger.go: ReadPacket of both mergers.
--   Rtp.Aac    av/format/rtsp/aac_rtp_decoder.go: aacRTPDecoder. sizes_loop and cut_loop are the loops of
--              Decode, body_of the payload after the AU headers.
-- A component's file has its definitions; the files below it have lemmas and theorems, named for what
-- they prove, and a file Tests with runs at concrete inputs.
--
-- Bounds and fuel. Bytes are naturals; where a theorem needs them below 256 it says so. Machine words
-- keep their wrap-around, also the int64 sums of timestamps. Lengths, indices and counters that hold
-- the size of a slice are unbounded, since a slice fits in memory. Loops over a byte slice take its
-- length plus one as fuel, and each round takes at least one byte; the loop of ReadPacket of the chain
-- recurses on the answers left in the source. The loop over AAC headers
-- takes their length in bits plus one, and each round at least one bit. The loops over boxes take the
-- length of the bytes, and each box has eight bytes; buildDescriptor and ReadPacket of the fMP4 demuxer
-- have their fuel as a parameter. Running out of fuel is a value
-- of its own; in the reading loops of the fMP4 demuxer it is the end of the stream.
--
-- Simplifications. Each method that holds a lock is one step. A cancelled context is a sequence of
-- rounds that ends. Slices are values
-- whose capacity is their length: that a parser reuses the memory of a slice is not modelled. The
-- clock, the segments and their source enter as values that the code reads, and muxers as the list of
-- answers that their calls get. The writes of one call of the fMP4 muxer
-- succeed together or fail together. A map is an association list.
--
-- The reader of the fMP4 demuxer is the list of the bytes it has left. The parameters of this part are
-- what json.Marshal and json.Unmarshal make of analytics, sort.Slice, and the constructors of codec data
-- from a configuration record. The quotient of two words in parseVUI is the exact one, floored; a
-- parameter says what the conversion of an infinite float gives.
--
-- Not modelled: the codec data of H.265, the FLAC encoder, resampling and Opus, SDP, the RTSP session, MP4,
-- HLS and MSE, the loops of the relay hub that start relays, stored analytics, the file of a segment,
-- metrics and configuration; network, files and generated code.
pub mod Prelude
pub mod Pio
pub mod Bits
pub mod Nalu
pub mod H264Parser
pub mod H265Parser
pub mod AacParser
pub mod Pcm
pub mod Av
pub mod Chain
pub mod PacketBuf
pub mod Segment
pub mod Rtp
pub mod Relay
pub mod Pva
pub mod Fmp4
