-- ===== src/Mime/Table0.antt =====
-- src/mime.rs: the entries of `MIME_TYPE_BY_EXTENSION` from "123" to "cdmia".
use anweb.Prelude.{List, [], ◌∷◌, codes, Bytes}

abbrev pub types_0 : List (Bytes × Bytes)
types_0 =
    (codes "123", codes "application/vnd.lotus-1-2-3")
    ∷ (codes "323", codes "text/h323")
    ∷ (codes "3dml", codes "text/vnd.in3d.3dml")
    ∷ (codes "3ds", codes "image/x-3ds")
    ∷ (codes "3g2", codes "video/3gpp2")
    ∷ (codes "3gp", codes "video/3gpp")
    ∷ (codes "3gp2", codes "video/3gpp2")
    ∷ (codes "3gpp", codes "video/3gpp")
    ∷ (codes "7z", codes "application/x-7z-compressed")
    ∷ (codes "aa", codes "audio/audible")
    ∷ (codes "aab", codes "application/x-authorware-bin")
    ∷ (codes "aac", codes "audio/aac")
    ∷ (codes "aaf", codes "application/octet-stream")
    ∷ (codes "aam", codes "application/x-authorware-map")
    ∷ (codes "aas", codes "application/x-authorware-seg")
    ∷ (codes "aax", codes "audio/vnd.audible.aax")
    ∷ (codes "abw", codes "application/x-abiword")
    ∷ (codes "ac", codes "application/pkix-attr-cert")
    ∷ (codes "ac3", codes "audio/ac3")
    ∷ (codes "aca", codes "application/octet-stream")
    ∷ (codes "acc", codes "application/vnd.americandynamics.acc")
    ∷ (codes "accda", codes "application/msaccess.addin")
    ∷ (codes "accdb", codes "application/msaccess")
    ∷ (codes "accdc", codes "application/msaccess.cab")
    ∷ (codes "accde", codes "application/msaccess")
    ∷ (codes "accdr", codes "application/msaccess.runtime")
    ∷ (codes "accdt", codes "application/msaccess")
    ∷ (codes "accdw", codes "application/msaccess.webapplication")
    ∷ (codes "accft", codes "application/msaccess.ftemplate")
    ∷ (codes "ace", codes "application/x-ace-compressed")
    ∷ (codes "acu", codes "application/vnd.acucobol")
    ∷ (codes "acutc", codes "application/vnd.acucorp")
    ∷ (codes "acx", codes "application/internet-property-stream")
    ∷ (codes "addin", codes "text/xml")
    ∷ (codes "ade", codes "application/msaccess")
    ∷ (codes "adobebridge", codes "application/x-bridge-url")
    ∷ (codes "adp", codes "application/msaccess")
    ∷ (codes "adt", codes "audio/vnd.dlna.adts")
    ∷ (codes "adts", codes "audio/aac")
    ∷ (codes "aep", codes "application/vnd.audiograph")
    ∷ (codes "afm", codes "application/octet-stream")
    ∷ (codes "afp", codes "application/vnd.ibm.modcap")
    ∷ (codes "ahead", codes "application/vnd.ahead.space")
    ∷ (codes "ai", codes "application/postscript")
    ∷ (codes "aif", codes "audio/aiff")
    ∷ (codes "aifc", codes "audio/aiff")
    ∷ (codes "aiff", codes "audio/aiff")
    ∷ (codes "air", codes "application/vnd.adobe.air-application-installer-package+zip")
    ∷ (codes "ait", codes "application/vnd.dvb.ait")
    ∷ (codes "amc", codes "application/mpeg")
    ∷ (codes "ami", codes "application/vnd.amiga.ami")
    ∷ (codes "anx", codes "application/annodex")
    ∷ (codes "apk", codes "application/vnd.android.package-archive")
    ∷ (codes "apng", codes "image/apng")
    ∷ (codes "appcache", codes "text/cache-manifest")
    ∷ (codes "application", codes "application/x-ms-application")
    ∷ (codes "apr", codes "application/vnd.lotus-approach")
    ∷ (codes "arc", codes "application/x-freearc")
    ∷ (codes "arj", codes "application/x-arj")
    ∷ (codes "art", codes "image/x-jg")
    ∷ (codes "asa", codes "application/xml")
    ∷ (codes "asax", codes "application/xml")
    ∷ (codes "asc", codes "application/pgp-signature")
    ∷ (codes "ascx", codes "application/xml")
    ∷ (codes "asd", codes "application/octet-stream")
    ∷ (codes "asf", codes "video/x-ms-asf")
    ∷ (codes "ashx", codes "application/xml")
    ∷ (codes "asi", codes "application/octet-stream")
    ∷ (codes "asm", codes "text/plain")
    ∷ (codes "asmx", codes "application/xml")
    ∷ (codes "aso", codes "application/vnd.accpac.simply.aso")
    ∷ (codes "aspx", codes "application/xml")
    ∷ (codes "asr", codes "video/x-ms-asf")
    ∷ (codes "asx", codes "video/x-ms-asf")
    ∷ (codes "atc", codes "application/vnd.acucorp")
    ∷ (codes "atom", codes "application/atom+xml")
    ∷ (codes "atomcat", codes "application/atomcat+xml")
    ∷ (codes "atomsvc", codes "application/atomsvc+xml")
    ∷ (codes "atx", codes "application/vnd.antix.game-component")
    ∷ (codes "au", codes "audio/basic")
    ∷ (codes "avi", codes "video/x-msvideo")
    ∷ (codes "aw", codes "application/applixware")
    ∷ (codes "axa", codes "audio/annodex")
    ∷ (codes "axs", codes "application/olescript")
    ∷ (codes "axv", codes "video/annodex")
    ∷ (codes "azf", codes "application/vnd.airzip.filesecure.azf")
    ∷ (codes "azs", codes "application/vnd.airzip.filesecure.azs")
    ∷ (codes "azw", codes "application/vnd.amazon.ebook")
    ∷ (codes "bas", codes "text/plain")
    ∷ (codes "bat", codes "application/x-msdownload")
    ∷ (codes "bcpio", codes "application/x-bcpio")
    ∷ (codes "bdf", codes "application/x-font-bdf")
    ∷ (codes "bdm", codes "application/vnd.syncml.dm+wbxml")
    ∷ (codes "bdoc", codes "application/bdoc")
    ∷ (codes "bed", codes "application/vnd.realvnc.bed")
    ∷ (codes "bh2", codes "application/vnd.fujitsu.oasysprs")
    ∷ (codes "bin", codes "application/octet-stream")
    ∷ (codes "blb", codes "application/x-blorb")
    ∷ (codes "blorb", codes "application/x-blorb")
    ∷ (codes "bmi", codes "application/vnd.bmi")
    ∷ (codes "bmp", codes "image/bmp")
    ∷ (codes "book", codes "application/vnd.framemaker")
    ∷ (codes "box", codes "application/vnd.previewsystems.box")
    ∷ (codes "boz", codes "application/x-bzip2")
    ∷ (codes "bpk", codes "application/octet-stream")
    ∷ (codes "btif", codes "image/prs.btif")
    ∷ (codes "buffer", codes "application/octet-stream")
    ∷ (codes "bz", codes "application/x-bzip")
    ∷ (codes "bz2", codes "application/x-bzip2")
    ∷ (codes "c", codes "text/plain")
    ∷ (codes "c11amc", codes "application/vnd.cluetrust.cartomobile-config")
    ∷ (codes "c11amz", codes "application/vnd.cluetrust.cartomobile-config-pkg")
    ∷ (codes "c4d", codes "application/vnd.clonk.c4group")
    ∷ (codes "c4f", codes "application/vnd.clonk.c4group")
    ∷ (codes "c4g", codes "application/vnd.clonk.c4group")
    ∷ (codes "c4p", codes "application/vnd.clonk.c4group")
    ∷ (codes "c4u", codes "application/vnd.clonk.c4group")
    ∷ (codes "cab", codes "application/octet-stream")
    ∷ (codes "caf", codes "audio/x-caf")
    ∷ (codes "calx", codes "application/vnd.ms-office.calx")
    ∷ (codes "cap", codes "application/vnd.tcpdump.pcap")
    ∷ (codes "car", codes "application/vnd.curl.car")
    ∷ (codes "cat", codes "application/vnd.ms-pki.seccat")
    ∷ (codes "cb7", codes "application/x-cbr")
    ∷ (codes "cba", codes "application/x-cbr")
    ∷ (codes "cbr", codes "application/x-cbr")
    ∷ (codes "cbt", codes "application/x-cbr")
    ∷ (codes "cbz", codes "application/x-cbr")
    ∷ (codes "cc", codes "text/plain")
    ∷ (codes "cco", codes "application/x-cocoa")
    ∷ (codes "cct", codes "application/x-director")
    ∷ (codes "ccxml", codes "application/ccxml+xml")
    ∷ (codes "cd", codes "text/plain")
    ∷ (codes "cdbcmsg", codes "application/vnd.contact.cmsg")
    ∷ (codes "cdda", codes "audio/aiff")
    ∷ (codes "cdf", codes "application/x-cdf")
    ∷ (codes "cdkey", codes "application/vnd.mediastation.cdkey")
    ∷ (codes "cdmia", codes "application/cdmi-capability")
    ∷ []
